-- ===== src/Driver/Mmap.antt =====
-- pfpga_mmap: mapping the whole buffer pool into userspace.
pub mod Pages
use phantom_fpga_final_embed.Base.{
  ℕ, ◌+◌, ◌-◌, ◌*◌, ◌%◌, ◌^◌, Bool, not, Option, none, some, ◌!=◌, if◌then◌else◌, u64_mod,
}
use phantom_fpga_final_embed.Driver.State.{
  Dev, Result, ok, err, einval, enomem, Errno, dma_mmap, emit,
}

-- struct vm_area_struct, as far as the driver reads it
pub record VmArea : Type 0 where
  pub vm_start : ℕ
  pub vm_end : ℕ
  pub vm_pgoff : ℕ

abbrev pub page_shift : ℕ
page_shift = 12

-- `vma->vm_end - vma->vm_start`, as a size_t
abbrev pub vma_size : VmArea → ℕ
vma_size vma = (vma.vm_end + u64_mod - vma.vm_start) % u64_mod

-- The rest of pfpga_mmap, with the pool that the second guard found. `answer` is what
-- dma_mmap_coherent returns: nothing, or an error.
map_pool : Option Errno → VmArea → ℕ → Dev → Result (Unit {0}) × Dev
map_pool answer vma pool d =
    let offset = vma.vm_pgoff * 2 ^ page_shift % u64_mod in
    if offset != 0
    then (err einval, d)
    else if vma_size vma != d.buffer_pool_size
    then (err einval, d)
    else let d = emit (dma_mmap d.buffer_pool_size pool d.buffer_pool_dma) d in
      elim answer [ none ↦ (ok tt, d) | some e ↦ (err e, d) ]

unfoldable pub pfpga_mmap : Option Errno → VmArea → Dev → Result (Unit {0}) × Dev
unfolding map_pool
pfpga_mmap answer vma d =
    if not d.configured
    then (err einval, d)
    else elim d.buffer_pool [ none ↦ (err enomem, d) | some pool ↦ map_pool answer vma pool d ]
