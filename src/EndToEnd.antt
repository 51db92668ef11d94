-- ===== src/EndToEnd.antt =====
-- The application and the viewer together: main_loop at one end of the connection, run_viewer at the
-- other.
use phantom_fpga_final_embed.Base.{
  ℕ, ◌+◌, ◌%◌, ◌≡◌, refl, sym, ap, ◌∙◌, Bool, true, false, not, ◌&&◌, Option, none, some, List, [],
  ◌∷◌, ◌++◌, ◌==◌, if◌then◌else◌, length, u64_mod, arith, ==_iff, ++-nil,
}
use phantom_fpga_final_embed.Regs.{frame_size}
use phantom_fpga_final_embed.Frame.{bit}
use phantom_fpga_final_embed.App.{App, TcpServer}
use phantom_fpga_final_embed.App.Frames.{wrong_magic, wrong_crc}
use phantom_fpga_final_embed.App.Loop.{Turn, main_loop}
use phantom_fpga_final_embed.App.Forward.{next_seen, in_sequence, passes, forwarded, on_the_wire}
use phantom_fpga_final_embed.App.Stream.{OnAir}
use phantom_fpga_final_embed.App.Reach.{ArePeaceful, frames_of, main_loop-Reaches}
use phantom_fpga_final_embed.Viewer.{Viewer, Output, payload, cursor_home}
use phantom_fpga_final_embed.Viewer.Client.Exact.{incoming}
use phantom_fpga_final_embed.Viewer.Methods.{bad_magic, bad_crc}
use phantom_fpga_final_embed.Viewer.Loop.{run_viewer, prepare, finish}
use phantom_fpga_final_embed.Viewer.Receive.{Ready}
use phantom_fpga_final_embed.Viewer.Handled.{is_good, image, show_one}
use phantom_fpga_final_embed.Viewer.Shows.{AreFrames, shown, count, Shows, run_viewer-Shows}

-- What the client of the application has been sent.
abbrev wire_behind : Option TcpServer → List ℕ
wire_behind none = []
wire_behind (some s) = s.wire

abbrev pub sent : App → List ℕ
sent a = wire_behind a.tcp_server

-- Frames that the viewer finds nothing wrong with.
abbrev AllGood : List (List ℕ) → Type 0
AllGood [] = Unit
AllGood (f ∷ fs) =
    ((length f ≡ frame_size) × (bad_magic f ≡ false) × (bad_crc f ≡ false)) × AllGood fs

conjuncts :
    (z m q c : Bool) → (z && (not m && q && not c)) ≡ true → (z ≡ true) × (m ≡ false) × (c ≡ false)
conjuncts true false true false e = (refl, refl, refl)
conjuncts false m q c e = cc
conjuncts true true q c e = cc
conjuncts true false false c e = cc
conjuncts true false true true e = cc

passes-good :
    (seen : Option ℕ) (f : List ℕ)
    → passes true seen f ≡ true
    → (length f ≡ frame_size) × (bad_magic f ≡ false) × (bad_crc f ≡ false)
passes-good seen f e =
    let (z, m, c) =
      conjuncts (length f == frame_size) (wrong_magic f) (in_sequence seen f) (wrong_crc true f)
        e in
    ((==_iff (length f) frame_size).0 z, m, c)

forwarded-AllGood : (seen : Option ℕ) (fs : List (List ℕ)) → AllGood (forwarded true seen fs)
forwarded-AllGood seen [] = tt
forwarded-AllGood seen (f ∷ fs) =
    go (passes true seen f) (forwarded true (next_seen seen f) fs) refl
      (forwarded-AllGood (next_seen seen f) fs)
  where
    go :
        (z : Bool) (r : List (List ℕ))
        → passes true seen f ≡ z
        → AllGood r
        → AllGood (if z then f ∷ r else r)
    go true r e h = (passes-good seen f e, h)
    go false r e h = h

-- The images of frames, one over the other.
abbrev pub drawn : List (List ℕ) → List Output → List Output
drawn [] t = t
drawn (f ∷ fs) t = drawn fs (payload (image f) ∷ cursor_home ∷ t)

AllGood-shown :
    (fs : List (List ℕ)) (t : List Output)
    → AllGood fs
    → AreFrames fs × (count bad_magic fs ≡ 0) × (count bad_crc fs ≡ 0) × (shown fs t ≡ drawn fs t)
AllGood-shown [] t h = (tt, refl, refl, refl)
AllGood-shown (f ∷ fs) t ((l, m, c), h) =
    let t' = payload (image f) ∷ cursor_home ∷ t in
    let (a, ms, cs, s) = AllGood-shown fs t' h in
    let good : is_good f ≡ true = ap (λ b. not b && not (bad_crc f)) m ∙ ap not c in
    let one : show_one f t ≡ t' = ap (λ (b : Bool). if b then t' else t) good in
    ((l, a), omega (arith, ap bit m, ms), omega (arith, ap bit c, cs), ap (shown fs) one ∙ s)

-- What a viewer has done at the end with frames that are all good.
pub record Drawn (fs : List (List ℕ)) (v w : Viewer) : Type 0 where
  pub received : w.stats.frames_received % u64_mod ≡ (v.stats.frames_received + length fs) % u64_mod
  pub magic : w.stats.magic_errors % u64_mod ≡ v.stats.magic_errors % u64_mod
  pub crc : w.stats.crc_errors % u64_mod ≡ v.stats.crc_errors % u64_mod
  pub terminal : w.terminal ≡ drawn fs v.terminal

Shows-Drawn : (fs : List (List ℕ)) (v w : Viewer) → AllGood fs → Shows fs v w → Drawn fs v w
Shows-Drawn fs v w h x =
    let (_, ms, cs, s) = AllGood-shown fs v.terminal h in
    record {
      received = x.received;
      magic = omega (arith, x.magic, ms);
      crc = omega (arith, x.crc, cs);
      terminal = x.terminal ∙ s;
    }

-- The frames that pass the application's tests reach the viewer, under these conditions. The application
-- reads frames (no --zero-copy), its CRC check is on, and its client is connected and has been sent nothing yet; no poll or
-- read of main_loop fails but to be tried again, every send takes all that it is given, and no signal
-- comes. The viewer runs, with its buffer, no signal comes there, and a recording, if one is wanted, has
-- room. The connection brings what main_loop has sent, in whatever pieces and with whatever
-- interruptions, and then ends. Then run_viewer receives as many frames as have passed, draws the image of
-- each in their order, and finds no wrong magic and no wrong CRC among them.
pub frames_reach_viewer :
    (ts : List Turn) (seen : Option ℕ) (a : App) (v : Viewer)
    → ArePeaceful ts
    → OnAir true seen [] a
    → Ready (length (forwarded true seen (frames_of ts))) v
    → incoming v.socket ≡ sent (main_loop ts a)
    → (w : Viewer) × (run_viewer v ≡ some (finish w))
      × Drawn (forwarded true seen (frames_of ts)) (prepare v) w
frames_reach_viewer ts seen a v peaceful air ready e =
    let fs = forwarded true seen (frames_of ts) in
    let good = forwarded-AllGood seen (frames_of ts) in
    let (last, x) = main_loop-Reaches ts true seen [] a peaceful air in
    let (s, there, (_, wire)) = x.server in
    let brought : incoming v.socket ≡ on_the_wire fs ++ [] =
      e ∙ ap wire_behind there ∙ wire ∙ sym (++-nil (on_the_wire fs)) in
    let (w, run, shows) =
      run_viewer-Shows fs v [] (AllGood-shown fs v.terminal good).0 (omega arith) ready brought in
    (w, run, Shows-Drawn fs (prepare v) w good shows)
