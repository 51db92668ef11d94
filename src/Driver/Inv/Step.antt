-- ===== src/Driver/Inv/Step.antt =====
-- The invariant holds after any sequence of calls, interrupts and DMA writes.
use phantom_fpga_final_embed.Base.{ℕ, inl, inr, Option, List, [], ◌∷◌, arith}
use phantom_fpga_final_embed.Driver.State.{Dev, Env, Errno, set_control}
use phantom_fpga_final_embed.Driver.Irq.{pfpga_irq_complete, pfpga_irq_error, pfpga_irq_no_desc}
use phantom_fpga_final_embed.Driver.Poll.{pfpga_poll}
use phantom_fpga_final_embed.Driver.Mmap.{VmArea, pfpga_mmap}
use phantom_fpga_final_embed.Driver.System.{
  Call, ioctl, read, poll, mmap, irq_complete, irq_error, irq_no_desc, complete, step, run,
}
use phantom_fpga_final_embed.Driver.Inv.{Inv, Leaves, Same-IsAllocated, quiet-Inv}
use phantom_fpga_final_embed.Driver.Inv.Frames.{length-with_control, read-Inv}
use phantom_fpga_final_embed.Driver.Inv.Ioctl.{ioctl-Inv}

-- These change the tail, the counters and the effects only.
module _ {d : Dev} (env : Env) (v : Inv d) where
  irq_complete-Inv : Leaves (pfpga_irq_complete env d)
  unfolding pfpga_irq_complete
  irq_complete-Inv = quiet-Inv v (ground arith) (ground arith)

  irq_error-Inv : Leaves (pfpga_irq_error env d)
  unfolding pfpga_irq_error
  irq_error-Inv = quiet-Inv v (ground arith) (ground arith)

  irq_no_desc-Inv : Leaves (pfpga_irq_no_desc env d)
  unfolding pfpga_irq_no_desc
  irq_no_desc-Inv = quiet-Inv v (ground arith) (ground arith)

  poll-Inv : Leaves (pfpga_poll env d)
  unfolding pfpga_poll
  poll-Inv = quiet-Inv v (ground arith) (ground arith)

mmap-Inv :
    {d : Dev} (answer : Option Errno) (vma : VmArea) → Inv d → Leaves (pfpga_mmap answer vma d)
unfolding pfpga_mmap
mmap-Inv answer vma v = quiet-Inv v (ground arith) (ground arith)

pub complete-Inv : {d : Dev} (i control : ℕ) → Inv d → Inv (set_control d i control)
complete-Inv {d} i control v = record {
  resources = elim v.resources [
    | inl e ↦ inl (ground (arith, e))
    | inr a ↦ inr (
        Same-IsAllocated (ground (arith, length-with_control d.desc_ring i control)) a
          a.consumer_in)
  ];
  one_free = v.one_free;
  running = v.running;
}

module _ (crc32_le : ℕ → List ℕ → ℕ) where
  pub step-Inv : (d : Dev) (c : Call) → Inv d → Inv (step crc32_le d c)
  unfolding step
  step-Inv d (ioctl env cmd) v = ioctl-Inv env cmd v
  step-Inv d (read env count) v = read-Inv crc32_le env count v
  step-Inv d (poll env) v = poll-Inv env v
  step-Inv d (mmap answer vma) v = mmap-Inv answer vma v
  step-Inv d (irq_complete env) v = irq_complete-Inv env v
  step-Inv d (irq_error env) v = irq_error-Inv env v
  step-Inv d (irq_no_desc env) v = irq_no_desc-Inv env v
  step-Inv d (complete i control) v = complete-Inv i control v

  -- From a state that satisfies the invariant of the driver, any sequence of calls ends in one: ioctls
  -- with any code, reads, polls, mappings, interrupts and DMA writes to the control words, whatever the
  -- registers, the memory, the allocators and userspace answer. All or none of the resources are there,
  -- a configured ring has all descriptors but one between the consumer and the head, and a device that
  -- streams is configured.
  pub run-Inv : (d : Dev) (cs : List Call) → Inv d → Inv (run crc32_le d cs)
  unfolding run
  run-Inv d [] v = v
  run-Inv d (c ∷ cs) v = run-Inv (step crc32_le d c) cs (step-Inv d c v)
