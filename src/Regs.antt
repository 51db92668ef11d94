-- ===== src/Regs.antt =====
-- driver/phantomfpga_regs.h and driver/phantomfpga_uapi.h: the register map, the constants and the
-- structures that the driver shares with the device and with userspace. Constants keep their names
-- without the prefix PHANTOMFPGA_. The inline helpers stand in Regs/Ring and Regs/Coalesce.
pub mod Ring
pub mod Coalesce
use phantom_fpga_final_embed.Base.{ℕ, ◌+◌, ◌-◌, ◌*◌, ◌^◌}

abbrev pub vendor_id : ℕ
vendor_id = 0x0dad

abbrev pub device_id : ℕ
device_id = 0xf00d

abbrev pub dev_id_val : ℕ
dev_id_val = 0xf00dface

abbrev pub dev_ver : ℕ
dev_ver = 0x0003_0000

abbrev pub msix_vectors : ℕ
msix_vectors = 3

abbrev pub default_frame_rate : ℕ
default_frame_rate = 25

abbrev pub default_desc_count : ℕ
default_desc_count = 256

abbrev pub default_irq_count : ℕ
default_irq_count = 8

abbrev pub default_irq_timeout : ℕ
default_irq_timeout = 40000

abbrev pub min_frame_rate : ℕ
min_frame_rate = 1

abbrev pub max_frame_rate : ℕ
max_frame_rate = 60

abbrev pub min_desc_count : ℕ
min_desc_count = 4

abbrev pub max_desc_count : ℕ
max_desc_count = 4096

-- Register offsets from BAR0.
abbrev pub reg_dev_id : ℕ
reg_dev_id = 0x000

abbrev pub reg_dev_ver : ℕ
reg_dev_ver = 0x004

abbrev pub reg_ctrl : ℕ
reg_ctrl = 0x008

abbrev pub reg_status : ℕ
reg_status = 0x00c

abbrev pub reg_frame_rate : ℕ
reg_frame_rate = 0x018

abbrev pub reg_current_frame : ℕ
reg_current_frame = 0x01c

abbrev pub reg_desc_ring_lo : ℕ
reg_desc_ring_lo = 0x020

abbrev pub reg_desc_ring_hi : ℕ
reg_desc_ring_hi = 0x024

abbrev pub reg_desc_ring_size : ℕ
reg_desc_ring_size = 0x028

abbrev pub reg_desc_head : ℕ
reg_desc_head = 0x02c

abbrev pub reg_desc_tail : ℕ
reg_desc_tail = 0x030

abbrev pub reg_irq_status : ℕ
reg_irq_status = 0x034

abbrev pub reg_irq_mask : ℕ
reg_irq_mask = 0x038

abbrev pub reg_irq_coalesce : ℕ
reg_irq_coalesce = 0x03c

abbrev pub reg_stat_frames_tx : ℕ
reg_stat_frames_tx = 0x040

abbrev pub reg_stat_frames_drop : ℕ
reg_stat_frames_drop = 0x044

abbrev pub reg_stat_desc_compl : ℕ
reg_stat_desc_compl = 0x050

abbrev pub reg_stat_errors : ℕ
reg_stat_errors = 0x054

abbrev pub reg_fault_inject : ℕ
reg_fault_inject = 0x058

abbrev pub reg_fault_rate : ℕ
reg_fault_rate = 0x05c

-- CTRL bits.
abbrev pub ctrl_run : ℕ
ctrl_run = 2 ^ 0

abbrev pub ctrl_reset : ℕ
ctrl_reset = 2 ^ 1

abbrev pub ctrl_irq_en : ℕ
ctrl_irq_en = 2 ^ 2

-- IRQ_STATUS and IRQ_MASK bits.
abbrev pub irq_complete : ℕ
irq_complete = 2 ^ 0

abbrev pub irq_error : ℕ
irq_error = 2 ^ 1

abbrev pub irq_no_desc : ℕ
irq_no_desc = 2 ^ 2

abbrev pub irq_all : ℕ
irq_all = 7

abbrev pub msix_vec_complete : ℕ
msix_vec_complete = 0

abbrev pub msix_vec_error : ℕ
msix_vec_error = 1

abbrev pub msix_vec_no_desc : ℕ
msix_vec_no_desc = 2

-- DROP_FRAME, CORRUPT_CRC, CORRUPT_DATA and SKIP_SEQUENCE.
abbrev pub fault_all : ℕ
fault_all = 2 ^ 0 + 2 ^ 1 + 2 ^ 2 + 2 ^ 3

abbrev pub desc_ctrl_completed : ℕ
desc_ctrl_completed = 2 ^ 0

abbrev pub frame_size : ℕ
frame_size = 5120

abbrev pub frame_count : ℕ
frame_count = 250

abbrev pub frame_magic : ℕ
frame_magic = 0xf00dface

-- sizeof(struct phantomfpga_sg_desc) and sizeof(struct phantomfpga_completion)
abbrev pub desc_size : ℕ
desc_size = 32

abbrev pub compl_size : ℕ
compl_size = 16

abbrev pub frame_crc_offset : ℕ
frame_crc_offset = frame_size - 4

abbrev pub compl_ok : ℕ
compl_ok = 0

-- struct phantomfpga_sg_desc, in host byte order
pub record SgDesc : Type 0 where
  pub control : ℕ
  pub length : ℕ
  pub dst_addr : ℕ
  pub next_desc : ℕ
  pub reserved : ℕ

-- struct phantomfpga_config. The driver neither reads nor sets `reserved` beyond zeroing.
pub record Config : Type 0 where
  pub desc_count : ℕ
  pub frame_rate : ℕ
  pub irq_coalesce_count : ℕ
  pub irq_coalesce_timeout : ℕ

-- struct phantomfpga_stats
pub record Stats : Type 0 where
  pub frames_produced : ℕ
  pub frames_dropped : ℕ
  pub frames_consumed : ℕ
  pub bytes_produced : ℕ
  pub bytes_consumed : ℕ
  pub desc_completed : ℕ
  pub errors : ℕ
  pub crc_errors : ℕ
  pub irq_count : ℕ
  pub desc_head : ℕ
  pub desc_tail : ℕ
  pub current_frame : ℕ
  pub status : ℕ

-- struct phantomfpga_buffer_info
pub record BufferInfo : Type 0 where
  pub buffer_size : ℕ
  pub buffer_count : ℕ
  pub total_size : ℕ
  pub frame_size : ℕ

-- struct phantomfpga_fault_cfg
pub record FaultCfg : Type 0 where
  pub inject_flags : ℕ
  pub fault_rate : ℕ
