-- ===== src/Viewer/Constants.antt =====
-- The constants of namespace frame in viewer/phantomfpga_view.h.
use phantom_fpga_final_embed.Base.{ℕ, ◌-◌}

abbrev pub magic : ℕ
magic = 0xF00DFACE

abbrev pub size : ℕ
size = 5120

abbrev pub data_size : ℕ
data_size = 4995

abbrev pub count : ℕ
count = 250

abbrev pub crc_offset : ℕ
crc_offset = size - 4

abbrev pub header_size : ℕ
header_size = 16

abbrev pub data_offset : ℕ
data_offset = header_size
