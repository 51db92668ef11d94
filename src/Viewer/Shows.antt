-- ===== src/Viewer/Shows.antt =====
-- The whole of run_viewer on a stream of frames.
use mathlib.Core.Option
use phantom_fpga_final_embed.Base.{
  ℕ, zero, suc, ◌+◌, ◌%◌, ◌≤◌, ◌<◌, ◌≡◌, refl, sym, ap, ◌∙◌, Bool, true, false, some, List, [], ◌∷◌,
  ◌++◌, if◌then◌else◌, length, u64_mod, arith, length-++, ++-nil, ++-assoc,
}
use phantom_fpga_final_embed.Frame.{bit}
use phantom_fpga_final_embed.App.Server.{htonl}
use phantom_fpga_final_embed.App.Forward.{on_the_wire}
use phantom_fpga_final_embed.Viewer.{Viewer, Output}
use phantom_fpga_final_embed.Viewer.Constants
use phantom_fpga_final_embed.Viewer.Client.Exact.{incoming}
use phantom_fpga_final_embed.Viewer.Methods.{receive_frame, bad_magic, bad_crc}
use phantom_fpga_final_embed.Viewer.Loop.{
  volume, prepare, finish, run_viewer, handle_frame, viewer_loop, loop-broken, loop-received,
}
use phantom_fpga_final_embed.Viewer.Stream.{length-incoming}
use phantom_fpga_final_embed.Viewer.Handled.{show_one, Handled, handle_frame-Handled}
use phantom_fpga_final_embed.Viewer.EndOfStream.{receive_frame-Ended}
use phantom_fpga_final_embed.Viewer.Receive.{
  Ready, Received, recorded, to_record, receive_frame-Received,
}

abbrev pub AreFrames : List (List ℕ) → Type 0
AreFrames [] = Unit
AreFrames (f ∷ fs) = (length f ≡ Constants.size) × AreFrames fs

-- What the good frames among them add to the terminal, one over the other.
abbrev pub shown : List (List ℕ) → List Output → List Output
shown [] t = t
shown (f ∷ fs) t = shown fs (show_one f t)

abbrev pub count : (List ℕ → Bool) → List (List ℕ) → ℕ
count test [] = 0
count test (f ∷ fs) = bit (test f) + count test fs

abbrev pub concat : List (List ℕ) → List ℕ
concat [] = []
concat (f ∷ fs) = f ++ concat fs

-- What a viewer has done with some frames.
pub record Shows (fs : List (List ℕ)) (v w : Viewer) : Type 0 where
  pub received : w.stats.frames_received % u64_mod ≡ (v.stats.frames_received + length fs) % u64_mod
  pub magic : w.stats.magic_errors % u64_mod ≡ (v.stats.magic_errors + count bad_magic fs) % u64_mod
  pub crc : w.stats.crc_errors % u64_mod ≡ (v.stats.crc_errors + count bad_crc fs) % u64_mod
  pub terminal : w.terminal ≡ shown fs v.terminal
  pub recording : recorded w ≡ recorded v ++ to_record v (concat fs)

both_recorded :
    (b : Bool) (f g : List ℕ)
    → (if b then f else []) ++ (if b then g else []) ≡ (if b then f ++ g else [])
both_recorded true f g = refl
both_recorded false f g = refl

-- One frame, and then the others.
Shows-∷ :
    (n : ℕ) (f rest : List ℕ) (fs : List (List ℕ)) (v w : Viewer) (r : Bool × Viewer)
    → Received n v f rest r
    → Handled r.1 (handle_frame r.1)
    → Shows fs (handle_frame r.1) w
    → Shows (f ∷ fs) v w
Shows-∷ n f rest fs v w r x y z = record {
  received = omega (arith, z.received, y.received, ap (λ s. s.frames_received) x.same.stats);
  magic = omega (
    arith,
    z.magic,
    y.magic,
    ap (λ s. s.magic_errors) x.same.stats,
    ap (λ g. bit (bad_magic g)) x.frame_in,
  );
  crc = omega (
    arith,
    z.crc,
    y.crc,
    ap (λ s. s.crc_errors) x.same.stats,
    ap (λ g. bit (bad_crc g)) x.frame_in,
  );
  terminal =
      z.terminal
      ∙ ap (shown fs) (
          y.terminal
          ∙ ap (λ g. show_one g r.1.terminal) x.frame_in
          ∙ ap (show_one f) x.same.terminal);
  recording =
      z.recording
      ∙ ap (λ b. recorded (handle_frame r.1) ++ (if b then concat fs else []))
          (y.path ∙ x.same.path)
      ∙ ap (λ t. t ++ to_record v (concat fs)) (y.recording ∙ x.same.recording)
      ∙ ++-assoc (recorded v) (to_record v f) (to_record v (concat fs))
      ∙ ap (λ t. recorded v ++ t) (both_recorded v.record_path f (concat fs));
}

nothing_recorded : (v : Viewer) → recorded v ++ to_record v [] ≡ recorded v
nothing_recorded v = ap (λ t. recorded v ++ t) (neither v.record_path) ∙ ++-nil (recorded v)
  where
    neither : (b : Bool) → ◌≡◌ {A = List ℕ} (if b then [] else []) []
    neither true = refl
    neither false = refl

loop-Shows :
    (fs : List (List ℕ)) (fuel : ℕ) (v : Viewer) (tail : List ℕ)
    → AreFrames fs
    → length tail < 4 + Constants.size
    → Ready (length fs) v
    → incoming v.socket ≡ on_the_wire fs ++ tail
    → length fs < fuel
    → (w : Viewer) × (viewer_loop fuel v ≡ some w) × Shows fs v w
loop-Shows fs zero v tail a short h e fuel = absurd (omega arith)
loop-Shows [] (suc fuel) v tail a short h e enough =
    let x = receive_frame-Ended 0 v h (omega (arith, ap length e)) in
    (
      (receive_frame v).1,
      loop-broken fuel v h.running x.got,
      record {
        received = omega (arith, ap (λ s. s.frames_received) x.stats);
        magic = omega (arith, ap (λ s. s.magic_errors) x.stats);
        crc = omega (arith, ap (λ s. s.crc_errors) x.stats);
        terminal = x.terminal;
        recording = x.recording ∙ sym (nothing_recorded v);
      },
    )
loop-Shows (f ∷ fs) (suc fuel) v tail (l, a) short h e enough =
    let rest = on_the_wire fs ++ tail in
    let x =
      receive_frame-Received (length fs) v f rest h
        (e ∙ ap (λ t. htonl Constants.size ++ t) (++-assoc f (on_the_wire fs) tail)) l in
    let y = handle_frame-Handled (receive_frame v).1 in
    let (w, run, z) =
      loop-Shows fs fuel (handle_frame (receive_frame v).1) tail a short
        (y.ready (length fs) x.ready) (y.incoming_ ∙ x.left) (omega arith) in
    (
      w,
      loop-received fuel v h.running x.got ∙ run,
      Shows-∷ (length fs) f rest fs v w (receive_frame v) x y z,
    )

length-on_the_wire : (fs : List (List ℕ)) → length fs ≤ length (on_the_wire fs)
length-on_the_wire [] = omega arith
length-on_the_wire (f ∷ fs) = omega (arith, length-++ f (on_the_wire fs), length-on_the_wire fs)

-- If whole frames come in, each after its length, and then less than one more, in whatever pieces and
-- with whatever interruptions, and no signal comes, run_viewer shows them: it counts each frame, each
-- wrong magic and each wrong CRC, draws the images of the others in their order, and has recorded all
-- of them, good or not, if a recording is wanted and there is room for it.
pub run_viewer-Shows :
    (fs : List (List ℕ)) (v : Viewer) (tail : List ℕ)
    → AreFrames fs
    → length tail < 4 + Constants.size
    → Ready (length fs) v
    → incoming v.socket ≡ on_the_wire fs ++ tail
    → (w : Viewer) × (run_viewer v ≡ some (finish w)) × Shows fs (prepare v) w
unfolding run_viewer
run_viewer-Shows fs v tail a short h e =
    let enough : length fs < suc (volume v.socket) = omega (
      arith,
      length-on_the_wire fs,
      length-++ (on_the_wire fs) tail,
      ap length e,
      length-incoming v.socket,
    ) in
    let ready : Ready (length fs) (prepare v) = record {
      running = h.running;
      calm = h.calm;
      buffer = h.buffer;
      disk = h.disk;
    } in
    let (w, run, z) =
      loop-Shows fs (suc (volume v.socket)) (prepare v) tail a short ready e enough in
    (w, ap (Option.map finish) run, z)
