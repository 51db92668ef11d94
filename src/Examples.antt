-- ===== src/Examples.antt =====
-- Concrete devices, environments and calls, and the theorems applied to them.
pub mod Device
pub mod Life
pub mod Settings
pub mod Queue
pub mod Checksum
pub mod Stream
pub mod Commands
pub mod Pipeline
use phantom_fpga_final_embed.Base.{
  ℕ, ◌≡◌, refl, inr, Bool, true, false, Option, none, some, List, [], ◌∷◌, ◌==◌, if◌then◌else◌,
  tabulate, arith,
}
use phantom_fpga_final_embed.Regs.{Config, SgDesc, reg_desc_tail, reg_dev_id, reg_ctrl, dev_id_val}
use phantom_fpga_final_embed.Regs.Ring.{IsRingSize}
use phantom_fpga_final_embed.Driver.State.{
  Dev, Env, Block, Io, iowrite32, null_desc, acquire, coherent, buffer_array,
}
use phantom_fpga_final_embed.Driver.Alloc.{slice}
use phantom_fpga_final_embed.Driver.Inv.{Inv, IsAllocated, pool_slices}

-- A function in the place of crc32_le.
abbrev pub sum_crc : ℕ → List ℕ → ℕ
sum_crc seed bytes = seed

abbrev pub four_descs : Config
four_descs = record {
  desc_count = 4;
  frame_rate = 30;
  irq_coalesce_count = 8;
  irq_coalesce_timeout = 40000;
}

-- The device has completed descriptor 0, and answers with its identity.
abbrev pub registers : ℕ → ℕ
registers offset =
    if offset == reg_desc_tail
    then 1
    else if offset == reg_dev_id
    then dev_id_val
    else if offset == reg_ctrl
    then 5
    else 0

abbrev pub granted : Env
granted = record {
  regs = registers;
  mem = λ p. 0;
  ring_block = some (record { vaddr = 0x1000; dma = 0x2000 });
  pool_block = some (record { vaddr = 0x10000; dma = 0x20000 });
  array_block = true;
  user_config = some four_descs;
  user_fault = none;
  user_writable = true;
}

-- A device that streams with four descriptors, one of them completed.
abbrev pub streaming_four : Dev
streaming_four = record {
  desc_ring = some (record null_desc { control = 1 } ∷ tabulate 3 1 (λ _. null_desc));
  desc_ring_dma = 0x2000;
  desc_ring_vaddr = 0x1000;
  desc_count = 4;
  buffers = some (tabulate 4 0 (slice 0x10000 0x20000 5136));
  buffer_size = 5136;
  buffer_pool = some 0x10000;
  buffer_pool_dma = 0x20000;
  buffer_pool_size = 20544;
  frame_rate = 30;
  irq_coalesce_count = 8;
  irq_coalesce_timeout = 40000;
  configured = true;
  streaming = true;
  desc_head = 3;
  desc_tail = 0;
  shadow_tail = 0;
  consumer = 0;
  frames_consumed = 0;
  bytes_consumed = 0;
  irq_count = 0;
  crc_errors = 0;
  io =
      iowrite32 reg_ctrl 5
      ∷ acquire buffer_array
      ∷ acquire (coherent 20544 0x10000 0x20000)
      ∷ acquire (coherent 128 0x1000 0x2000)
      ∷ [];
}

pub four-IsRingSize : IsRingSize 4
four-IsRingSize = record { log = 2; log_le = omega arith; pow = refl; two = omega arith }

pub streaming_four-IsAllocated : IsAllocated streaming_four
unfolding pool_slices
streaming_four-IsAllocated = record {
  size = four-IsRingSize;
  count_ge = omega arith;
  count_le = omega arith;
  ring_length = refl;
  buffers_length = refl;
  slices = refl;
  has_pool = refl;
  buffer_fits = refl;
  pool_fits = refl;
  consumer_in = omega arith;
}

pub streaming_four-Inv : Inv streaming_four
streaming_four-Inv = record {
  resources = inr streaming_four-IsAllocated;
  one_free = λ _. refl;
  running = λ _. refl;
}
