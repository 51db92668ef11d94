-- ===== src/Viewer.antt =====
-- The viewer (viewer/): a TCP client that takes the frames of the application and shows them. Here
-- are struct ViewerStats and the members of class PhantomFpgaViewer.
pub mod Client
pub mod Constants
pub mod Methods
pub mod Loop
pub mod Stream
pub mod Termination
pub mod Whole
pub mod Receive
pub mod Options
pub mod Exits
pub mod Handled
pub mod EndOfStream
pub mod Shows
pub mod Corrupted
pub mod Sequence
use phantom_fpga_final_embed.Base.{
  ℕ, ◌+◌, ◌-◌, ◌*◌, ◌^◌, Bool, true, false, List, [], ◌∷◌, get_or, u32_mod,
}
use phantom_fpga_final_embed.Driver.State.{le32}
use phantom_fpga_final_embed.Viewer.Client.{Arrival}

-- `last_sequence` is an int32_t: these are its 32 bits, so that -1 is the largest value.
pub record ViewerStats : Type 0 where
  pub frames_received : ℕ
  pub frames_dropped : ℕ
  pub crc_errors : ℕ
  pub magic_errors : ℕ
  pub last_sequence : ℕ

abbrev pub no_frame_yet : ℕ
no_frame_yet = u32_mod - 1

-- What goes to the terminal.
pub data Output : Type 0 where
  clear_screen hide_cursor show_cursor cursor_home newline statistics : Output
  payload : List ℕ → Output

-- `terminal` is all that has been written, the latest first. `recording` is what the file of --record
-- holds, `record_file` whether it is open. What fopen and fwrite will do is in `can_record` and
-- `disk_room`, a count of bytes.
pub record Viewer : Type 0 where
  pub socket : List Arrival
  pub running : Bool
  pub frame_buffer : List ℕ
  pub stats : ViewerStats
  pub terminal : List Output
  pub record_path : Bool
  pub record_file : Bool
  pub recording : List ℕ
  pub can_record : Bool
  pub disk_room : ℕ
