-- ===== src/Driver/System.antt =====
-- The driver as its callers and the device drive it: one call at a time, in any order. A call
-- carries what it finds outside (`Env`), so any behaviour of userspace, of the allocators and of
-- the registers is a sequence of calls; `complete` is a DMA write of the device.
use phantom_fpga_final_embed.Base.{ℕ, Option, List, [], ◌∷◌}
use phantom_fpga_final_embed.Driver.State.{Dev, Env, Errno, set_control}
use phantom_fpga_final_embed.Driver.Irq.{pfpga_irq_complete, pfpga_irq_error, pfpga_irq_no_desc}
use phantom_fpga_final_embed.Driver.Frames.{pfpga_read}
use phantom_fpga_final_embed.Driver.Poll.{pfpga_poll}
use phantom_fpga_final_embed.Driver.Mmap.{VmArea, pfpga_mmap}
use phantom_fpga_final_embed.Driver.Ioctl.{pfpga_ioctl}

pub data Call : Type 0 where
  ioctl : Env → ℕ → Call
  read : Env → ℕ → Call
  poll : Env → Call
  mmap : Option Errno → VmArea → Call
  irq_complete irq_error irq_no_desc : Env → Call
  complete : ℕ → ℕ → Call

module _ (crc32_le : ℕ → List ℕ → ℕ) where
  unfoldable pub step : Dev → Call → Dev
  step d (ioctl env cmd) = (pfpga_ioctl env cmd d).1
  step d (read env count) = (pfpga_read crc32_le env count d).1
  step d (poll env) = (pfpga_poll env d).1
  step d (mmap answer vma) = (pfpga_mmap answer vma d).1
  step d (irq_complete env) = (pfpga_irq_complete env d).1
  step d (irq_error env) = (pfpga_irq_error env d).1
  step d (irq_no_desc env) = (pfpga_irq_no_desc env d).1
  step d (complete i control) = set_control d i control

  unfoldable pub run : Dev → List Call → Dev
  run d [] = d
  run d (c ∷ cs) = run (step d c) cs
