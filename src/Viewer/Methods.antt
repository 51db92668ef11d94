-- ===== src/Viewer/Methods.antt =====
-- receive_frame, validate_frame, check_sequence, display_frame and print_stats of
-- viewer/phantomfpga_view_impl.cpp.
use phantom_fpga_final_embed.Base.{
  ℕ, ◌+◌, ◌-◌, ◌*◌, ◌%◌, ◌^◌, Bool, true, false, not, ◌&&◌, List, [], ◌∷◌, ◌++◌, ◌==◌, ◌!=◌,
  if◌then◌else◌, length, take, drop, get_or, add32, sub32, add64,
}
use phantom_fpga_final_embed.Crc.{compute}
use phantom_fpga_final_embed.Frame.{magic_of, sequence_of, crc_of, bit}
use phantom_fpga_final_embed.Viewer.{
  Viewer, ViewerStats, payload, cursor_home, statistics, no_frame_yet,
}
use phantom_fpga_final_embed.Viewer.Constants
use phantom_fpga_final_embed.Viewer.Client.{ReadExact, read_exact}

-- ntohl of the four bytes read, on a little-endian machine or a big-endian one.
abbrev pub ntohl : List ℕ → ℕ
ntohl b = get_or b 0 0 * 2 ^ 24 + get_or b 1 0 * 2 ^ 16 + get_or b 2 0 * 2 ^ 8 + get_or b 3 0

-- A buffer whose first bytes are written over.
abbrev pub overwrite : List ℕ → List ℕ → List ℕ
overwrite bytes buffer = bytes ++ drop (length bytes) buffer

-- What the rest of receive_frame does once the frame is in the buffer: fopen at the first frame, which
-- truncates the file, and fwrite, which may write less.
unfoldable pub record_frame : Viewer → Bool × Viewer
record_frame v =
    if not v.record_path
    then (true, v)
    else if not v.record_file && not v.can_record
    then (false, v)
    else let old = if v.record_file then v.recording else [] in
      let written = take v.disk_room v.frame_buffer in
      let room = v.disk_room - length written in
      let v = record v { record_file = true; recording = old ++ written; disk_room = room } in
      (length written == Constants.size, v)

-- What a read has put into the buffer, and where it leaves the socket and the flag.
abbrev pub put : ReadExact → Viewer → Viewer
put r v = record v {
  socket = r.socket;
  running = r.running;
  frame_buffer = overwrite r.taken v.frame_buffer;
}

-- The same after the read of the length, which goes to a local variable.
abbrev pub leave_at : ReadExact → Viewer → Viewer
leave_at r v = record v { socket = r.socket; running = r.running }

-- The second read, of the frame itself.
unfoldable pub receive_payload : Viewer → Bool × Viewer
receive_payload v =
    let r = read_exact Constants.size v.running v.socket in
    if r.complete then record_frame (put r v) else (false, put r v)

unfoldable pub receive_frame : Viewer → Bool × Viewer
receive_frame v =
    let r = read_exact 4 v.running v.socket in
    if not r.complete
    then (false, leave_at r v)
    else if ntohl r.taken != Constants.size
    then (false, leave_at r v)
    else receive_payload (leave_at r v)

abbrev pub bad_magic : List ℕ → Bool
bad_magic frame = magic_of frame != Constants.magic

abbrev pub bad_crc : List ℕ → Bool
bad_crc frame = compute (take Constants.crc_offset frame) != crc_of frame

unfoldable pub validate_frame : Viewer → Bool × Viewer
validate_frame v =
    let s = v.stats in
    let m = bad_magic v.frame_buffer in
    let c = bad_crc v.frame_buffer in
    let s = record s {
      magic_errors = add64 s.magic_errors (bit m);
      crc_errors = add64 s.crc_errors (bit c);
    } in
    (not m && not c, record v { stats = s })

-- `dropped` of check_sequence, 0 if the sequence is as expected. The signed constant frame::COUNT becomes unsigned in it.
unfoldable pub dropped : ℕ → ℕ → ℕ
dropped last current =
    let expected = add32 last 1 % Constants.count in
    if current == expected
    then 0
    else add32 (sub32 current expected) Constants.count % Constants.count

unfoldable pub follow : ℕ → ViewerStats → ViewerStats
unfolding dropped
follow current s =
    let lost = if s.last_sequence == no_frame_yet then 0 else dropped s.last_sequence current in
    record s { frames_dropped = add64 s.frames_dropped lost; last_sequence = current }

unfoldable pub check_sequence : Viewer → Viewer
unfolding follow
check_sequence v = record v { stats = follow (sequence_of v.frame_buffer) v.stats }

-- DATA_SIZE bytes from DATA_OFFSET on, over what stood there.
unfoldable pub display_frame : Viewer → Viewer
display_frame v =
    let image = take Constants.data_size (drop Constants.data_offset v.frame_buffer) in
    record v { terminal = payload image ∷ cursor_home ∷ v.terminal }

-- print_stats closes the file.
unfoldable pub print_stats : Viewer → Viewer
print_stats v = record v { record_file = false; terminal = statistics ∷ v.terminal }
