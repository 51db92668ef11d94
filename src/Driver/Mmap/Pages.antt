-- ===== src/Driver/Mmap/Pages.antt =====
-- When the buffer pool can be mapped.
use phantom_fpga_final_embed.Base.{◌%◌, ◌^◌, ◌≡◌, ◌<◌, ◌≤◌, refl, ◌↔◌, true, none, u64_mod, arith}
use phantom_fpga_final_embed.Driver.State.{Dev, ok}
use phantom_fpga_final_embed.Driver.Mmap.{VmArea, page_shift, vma_size, map_pool, pfpga_mmap}
use phantom_fpga_final_embed.Driver.Inv.{Inv, IsAllocated, configured-IsAllocated}

-- A mapping begins and ends on a page, in order.
pub record IsPaged (vma : VmArea) : Type 0 where
  pub start : vma.vm_start % 2 ^ page_shift ≡ 0
  pub stop : vma.vm_end % 2 ^ page_shift ≡ 0
  pub order : vma.vm_start ≤ vma.vm_end
  pub below : vma.vm_end < u64_mod

paged_size : (vma : VmArea) → IsPaged vma → vma_size vma % 2 ^ page_shift ≡ 0
paged_size vma p = omega (arith, p.start, p.stop, p.order, p.below)

-- A mapping of the pool that pfpga_mmap accepts.
abbrev pub Mappable : Dev → Type 0
Mappable d = (vma : VmArea) × IsPaged vma × ((pfpga_mmap none vma d).0 ≡ ok tt)

abbrev whole_pool : Dev → VmArea
whole_pool d = record { vm_start = 0; vm_end = d.buffer_pool_size; vm_pgoff = 0 }

Mappable-counts : {d : Dev} → IsAllocated d → Mappable d → d.desc_count % 256 ≡ 0
unfolding pfpga_mmap map_pool
Mappable-counts {d} a (vma, p, e) =
    let fits : vma_size vma ≡ d.buffer_pool_size = ground arith in
    omega (arith, a.pool_fits, paged_size vma p, fits)

whole_pool-IsPaged : {d : Dev} → IsAllocated d → d.desc_count % 256 ≡ 0 → IsPaged (whole_pool d)
whole_pool-IsPaged a h = record {
  start = refl;
  stop = omega (arith, a.pool_fits, h);
  order = omega arith;
  below = omega (arith, a.pool_fits, a.count_le);
}

-- Of resources that are there and configured.
pub allocated-Mappable :
    {d : Dev} → IsAllocated d → d.configured ≡ true → Mappable d ↔ (d.desc_count % 256 ≡ 0)
unfolding pfpga_mmap map_pool
allocated-Mappable {d} a conf =
    (Mappable-counts a, λ h. (whole_pool d, whole_pool-IsPaged a h, ground (arith, conf, a)))

-- A mapping covers whole pages, and pfpga_mmap wants it to be exactly as long as the pool. So a
-- configured device can be mapped if and only if its descriptor count is a multiple of 256: a pool
-- of fewer buffers of 5136 bytes does not end on a page.
pub Mappable-iff : {d : Dev} → Inv d → d.configured ≡ true → Mappable d ↔ (d.desc_count % 256 ≡ 0)
Mappable-iff v conf = allocated-Mappable (configured-IsAllocated v conf) conf
