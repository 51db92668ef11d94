-- ===== src/Frame.antt =====
-- A frame as its bytes: the header of app and viewer (struct phantomfpga_frame_header and FrameHeader
-- have the same layout) and the stored CRC. Both read the fields in the byte order of the host, which
-- is taken to be little-endian.
use phantom_fpga_final_embed.Base.{ℕ, Bool, List, get_or, if◌then◌else◌}
use phantom_fpga_final_embed.Regs.{frame_crc_offset}
use phantom_fpga_final_embed.Driver.State.{le32}

-- The 32-bit value at an offset.
abbrev pub word : List ℕ → ℕ → ℕ
word bytes i = le32 (λ j. get_or bytes j 0) i

abbrev pub magic_of : List ℕ → ℕ
magic_of frame = word frame 0

abbrev pub sequence_of : List ℕ → ℕ
sequence_of frame = word frame 4

abbrev pub crc_of : List ℕ → ℕ
crc_of frame = word frame frame_crc_offset

-- A counter that goes up by one if a test holds.
abbrev pub bit : Bool → ℕ
bit b = if b then 1 else 0
