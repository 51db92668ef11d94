-- ===== src/Viewer/Loop.antt =====
-- run_viewer of viewer/phantomfpga_view.cpp. The loop is on fuel, of which the bytes in the socket are
-- enough.
use mathlib.Core.Option
use phantom_fpga_final_embed.Base.{
  ℕ, zero, suc, ◌+◌, true, false, not, Option, none, some, List, [], ◌∷◌, if◌then◌else◌, length,
  add64, ◌≡◌, refl,
}
use phantom_fpga_final_embed.Viewer.{Viewer, clear_screen, hide_cursor, show_cursor, newline}
use phantom_fpga_final_embed.Viewer.Client.{Arrival, arrived}
use phantom_fpga_final_embed.Viewer.Methods.{
  receive_frame, validate_frame, check_sequence, display_frame, print_stats,
}

-- The body of the loop after receive_frame; frame_delay only sleeps.
unfoldable pub handle_frame : Viewer → Viewer
handle_frame v =
    let s = record (v.stats) { frames_received = add64 v.stats.frames_received 1 } in
    let v = record v { stats = s } in
    let (valid, v) = validate_frame v in if valid then display_frame (check_sequence v) else v

unfoldable pub viewer_loop : ℕ → Viewer → Option Viewer
viewer_loop zero v = none
viewer_loop (suc fuel) v =
    let (received, w) = receive_frame v in
    let again = viewer_loop fuel (handle_frame w) in
    if not v.running then some v else if received then again else some w

-- All bytes that the socket will ever bring.
abbrev pub volume : List Arrival → ℕ
volume [] = 0
volume (arrived _ bs ∷ s) = length bs + volume s
volume (_ ∷ s) = volume s

-- show_cursor, the newline and the statistics.
unfoldable pub finish : Viewer → Viewer
finish v = print_stats (record v { terminal = newline ∷ show_cursor ∷ v.terminal })

-- clear_screen and hide_cursor.
abbrev pub prepare : Viewer → Viewer
prepare v = record v { terminal = hide_cursor ∷ clear_screen ∷ v.terminal }

unfoldable pub run_viewer : Viewer → Option Viewer
run_viewer v = let v = prepare v in Option.map finish (viewer_loop (suc (volume v.socket)) v)

-- One round: the flag is cleared, receive_frame fails, or a frame is handled and the loop goes on.
module _ (fuel : ℕ) (v : Viewer) where
  pub loop-stopped : v.running ≡ false → viewer_loop (suc fuel) v ≡ some v
  unfolding viewer_loop
  loop-stopped e = rw e refl

  pub loop-broken :
      v.running ≡ true
      → (receive_frame v).0 ≡ false
      → viewer_loop (suc fuel) v ≡ some (receive_frame v).1
  unfolding viewer_loop
  loop-broken e f = simp (e, f) refl

  pub loop-received :
      v.running ≡ true
      → (receive_frame v).0 ≡ true
      → viewer_loop (suc fuel) v ≡ viewer_loop fuel (handle_frame (receive_frame v).1)
  unfolding viewer_loop
  loop-received e f = simp (e, f) refl
