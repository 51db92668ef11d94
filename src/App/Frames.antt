-- ===== src/App/Frames.antt =====
-- validate_frame and process_frame of app/phantomfpga_app_impl.cpp.
use phantom_fpga_final_embed.Base.{
  ℕ, ◌%◌, Bool, true, false, not, ◌&&◌, List, if◌then◌else◌, ◌!=◌, is_none, length, take, add32,
  add64,
}
use phantom_fpga_final_embed.Regs.{frame_size, frame_count, frame_magic, frame_crc_offset}
use phantom_fpga_final_embed.Crc.{compute}
use phantom_fpga_final_embed.Frame.{magic_of, sequence_of, crc_of, bit}
use phantom_fpga_final_embed.App.{App, AppStats, Effect, TcpServer, on_server}
use phantom_fpga_final_embed.App.Server.{Send, send_frame}

-- The three tests of a frame of the right size. The sequence is only tested after a first frame, the
-- CRC only if the options say so.
abbrev pub wrong_magic : List ℕ → Bool
wrong_magic frame = magic_of frame != frame_magic

abbrev pub wrong_sequence : AppStats → List ℕ → Bool
wrong_sequence s frame = s.seq_initialized && sequence_of frame != add32 s.last_seq 1 % frame_count

abbrev pub wrong_crc : Bool → List ℕ → Bool
wrong_crc validate_crc frame = validate_crc && compute (take frame_crc_offset frame) != crc_of frame

-- Each test that fails is counted; the sequence is noted whether or not the frame is valid.
unfoldable pub validate_frame : Bool → List ℕ → AppStats → Bool × AppStats
validate_frame validate_crc frame s =
    let m = wrong_magic frame in
    let q = wrong_sequence s frame in
    let c = wrong_crc validate_crc frame in
    if length frame != frame_size then (false, s) else (
      not m && not q && not c,
      record s {
        magic_errors = add64 s.magic_errors (bit m);
        seq_errors = add64 s.seq_errors (bit q);
        crc_errors = add64 s.crc_errors (bit c);
        last_seq = sequence_of frame;
        seq_initialized = true;
      },
    )

-- has_client and send_frame. The result of send_frame is not looked at.
unfoldable pub send_to_client :
    Send → Send → List ℕ → TcpServer × List Effect → TcpServer × List Effect
send_to_client first second frame (s, log) =
    if is_none s.client_fd then (s, log) else (send_frame first second frame (s, log)).1

-- What validate_frame says of a frame that has been counted.
abbrev pub judge : List ℕ → App → Bool × AppStats
judge frame a =
    validate_frame a.config.validate_crc frame
      (record (a.stats) { frames_received = add64 a.stats.frames_received 1 })

-- The frame counted as received, and as valid if it is.
abbrev pub counted : List ℕ → App → App
counted frame a =
    let (valid, s) = judge frame a in
    record a { stats = record s { frames_valid = add64 s.frames_valid (bit valid) } }

-- The verbose line on standard output is left out.
unfoldable pub process_frame : Send → Send → List ℕ → App → App
process_frame first second frame a =
    if (judge frame a).0
    then on_server (send_to_client first second frame) (counted frame a)
    else counted frame a
