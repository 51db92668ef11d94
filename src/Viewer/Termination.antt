-- ===== src/Viewer/Termination.antt =====
-- run_viewer ends where the stream does, whatever it has brought.
use mathlib.Core.Option
use phantom_fpga_final_embed.Base.{
  ℕ, zero, suc, ◌+◌, ◌≤◌, ◌<◌, ◌≡◌, ◌∙◌, ◌⊎◌, refl, ap, Bool, true, false, not, Option, some, List,
  ◌∷◌, ◌!=◌, if_cases, Bool-cases, inl, inr, arith,
}
use phantom_fpga_final_embed.Viewer.{Viewer, Output, statistics, newline, show_cursor}
use phantom_fpga_final_embed.Viewer.Constants
use phantom_fpga_final_embed.Viewer.Client.{read_exact}
use phantom_fpga_final_embed.Viewer.Methods.{
  record_frame, receive_payload, receive_frame, validate_frame, check_sequence, display_frame,
  print_stats, ntohl, put, leave_at,
}
use phantom_fpga_final_embed.Viewer.Loop.{
  volume, handle_frame, viewer_loop, prepare, finish, run_viewer, loop-stopped, loop-broken,
  loop-received,
}
use phantom_fpga_final_embed.Viewer.Stream.{read_exact-volume}

record_frame-socket : (v : Viewer) → (record_frame v).1.socket ≡ v.socket
unfolding record_frame
record_frame-socket v = ground arith

pub handle_frame-socket : (v : Viewer) → (handle_frame v).socket ≡ v.socket
unfolding handle_frame validate_frame check_sequence display_frame
handle_frame-socket v = ground arith

-- A frame received has used up more than this many bytes.
abbrev UsesUp : ℕ → ℕ → Bool × Viewer → Type 0
UsesUp n total (received, w) = received ≡ true → volume w.socket + n ≤ total

receive_payload-UsesUp : (v : Viewer) → UsesUp Constants.size (volume v.socket) (receive_payload v)
unfolding receive_payload
receive_payload-UsesUp v =
    let r = read_exact Constants.size v.running v.socket in
    if_cases (UsesUp Constants.size (volume v.socket)) r.complete
      (λ c _. omega (
        arith,
        ap volume (record_frame-socket (put r v)),
        read_exact-volume Constants.size v.running v.socket c,
      ))
      (λ _ d. ground arith)

receive_frame-UsesUp : (v : Viewer) → UsesUp Constants.size (volume v.socket) (receive_frame v)
unfolding receive_frame
receive_frame-UsesUp v =
    let r = read_exact 4 v.running v.socket in
    let w = leave_at r v in
    if_cases (UsesUp Constants.size (volume v.socket)) (not r.complete) (λ _ d. ground arith)
      (λ c.
        if_cases (UsesUp Constants.size (volume v.socket)) (ntohl r.taken != Constants.size)
          (λ _ d. ground arith)
          (λ _ d.
            ground (arith, receive_payload-UsesUp w d, read_exact-volume 4 v.running v.socket)))

abbrev Ends : Option Viewer → Type 0
Ends o = (w : Viewer) × (o ≡ some w)

-- One round, if the rounds after it end.
round-Ends :
    (fuel : ℕ) (v : Viewer)
    → ((x : Viewer) → volume x.socket < fuel → Ends (viewer_loop fuel x))
    → volume v.socket < suc fuel
    → Ends (viewer_loop (suc fuel) v)
round-Ends fuel v later h = by_flag (Bool-cases v.running)
  where
    w : Viewer
    w = (receive_frame v).1

    by_answer :
        v.running ≡ true
        → ((receive_frame v).0 ≡ true) ⊎ ((receive_frame v).0 ≡ false)
        → Ends (viewer_loop (suc fuel) v)
    by_answer run (inr no_frame) = (w, loop-broken fuel v run no_frame)
    by_answer run (inl frame) =
        let used = receive_frame-UsesUp v frame in
        let (x, e) = later (handle_frame w) (omega (arith, ap volume (handle_frame-socket w))) in
        (x, loop-received fuel v run frame ∙ e)

    by_flag : (v.running ≡ true) ⊎ (v.running ≡ false) → Ends (viewer_loop (suc fuel) v)
    by_flag (inl run) = by_answer run (Bool-cases (receive_frame v).0)
    by_flag (inr off) = (v, loop-stopped fuel v off)

-- Fuel for the bytes that are left, and one more round.
loop-Ends : (fuel : ℕ) (v : Viewer) → volume v.socket < fuel → Ends (viewer_loop fuel v)
loop-Ends zero v h = absurd (omega arith)
loop-Ends (suc fuel) v h = round-Ends fuel v (loop-Ends fuel) h

-- On a stream that ends run_viewer ends, whatever it has brought, however it is cut up and whenever the
-- signal handler runs: as many rounds as there are bytes to come, and one more, are enough. At the end the cursor is shown
-- again, the statistics are printed and the recording is closed.
pub run_viewer_ends :
    (v : Viewer)
    → (w : Viewer) × (run_viewer v ≡ some w)
      × (w.record_file ≡ false)
      × ((t : List Output) × (w.terminal ≡ statistics ∷ newline ∷ show_cursor ∷ t))
unfolding run_viewer finish print_stats
run_viewer_ends v =
    let (w, e) = loop-Ends (suc (volume v.socket)) (prepare v) (omega arith) in
    (finish w, ap (Option.map finish) e, refl, (w.terminal, refl))
