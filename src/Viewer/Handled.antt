-- ===== src/Viewer/Handled.antt =====
-- What the body of the loop of run_viewer does with a frame once it is in the buffer.
use phantom_fpga_final_embed.Base.{
  ℕ, ◌≡◌, refl, sym, ap, Bool, not, ◌&&◌, List, ◌∷◌, if◌then◌else◌, if_cases, take, drop, add64,
}
use phantom_fpga_final_embed.Frame.{bit}
use phantom_fpga_final_embed.Viewer.{Viewer, ViewerStats, Output, payload, cursor_home}
use phantom_fpga_final_embed.Viewer.Constants
use phantom_fpga_final_embed.Viewer.Client.Exact.{incoming}
use phantom_fpga_final_embed.Viewer.Methods.{
  bad_magic, bad_crc, validate_frame, check_sequence, follow, display_frame,
}
use phantom_fpga_final_embed.Viewer.Loop.{handle_frame}
use phantom_fpga_final_embed.Viewer.Receive.{Ready, recorded}

abbrev pub is_good : List ℕ → Bool
is_good f = not (bad_magic f) && not (bad_crc f)

abbrev pub image : List ℕ → List ℕ
image f = take Constants.data_size (drop Constants.data_offset f)

-- The image of a good frame goes over what stood on the terminal.
abbrev pub show_one : List ℕ → List Output → List Output
show_one f t = if is_good f then payload (image f) ∷ cursor_home ∷ t else t

-- The same but for the statistics and the terminal.
pub record Handled (v w : Viewer) : Type 0 where
  pub received : w.stats.frames_received ≡ add64 v.stats.frames_received 1
  pub magic : w.stats.magic_errors ≡ add64 v.stats.magic_errors (bit (bad_magic v.frame_buffer))
  pub crc : w.stats.crc_errors ≡ add64 v.stats.crc_errors (bit (bad_crc v.frame_buffer))
  pub terminal : w.terminal ≡ show_one v.frame_buffer v.terminal
  pub recording : recorded w ≡ recorded v
  pub path : w.record_path ≡ v.record_path
  pub incoming_ : incoming w.socket ≡ incoming v.socket
  pub ready : (n : ℕ) → Ready n v → Ready n w

-- Whatever becomes of the statistics and the terminal.
stays-Ready :
    (v : Viewer) (n : ℕ)
    → Ready n v
    → (s : ViewerStats) (t : List Output) → Ready n (record v { stats = s; terminal = t })
stays-Ready v n h s t = record {
  running = h.running;
  calm = h.calm;
  buffer = h.buffer;
  disk = h.disk;
}

pub handle_frame-Handled : (v : Viewer) → Handled v (handle_frame v)
unfolding handle_frame validate_frame check_sequence follow display_frame
handle_frame-Handled v =
    if_cases (Handled v) (is_good v.frame_buffer)
      (λ good. record {
        received = refl;
        magic = refl;
        crc = refl;
        terminal = sym (
            ap
              (λ b.
                if b then payload (image v.frame_buffer) ∷ cursor_home ∷ v.terminal else v.terminal)
              good);
        recording = refl;
        path = refl;
        incoming_ = refl;
        ready = λ n h. stays-Ready v n h _ _;
      })
      (λ bad. record {
        received = refl;
        magic = refl;
        crc = refl;
        terminal = sym (
            ap
              (λ b.
                if b then payload (image v.frame_buffer) ∷ cursor_home ∷ v.terminal else v.terminal)
              bad);
        recording = refl;
        path = refl;
        incoming_ = refl;
        ready = λ n h. stays-Ready v n h _ _;
      })
