-- ===== src/Driver/Inv/Buffers.antt =====
-- Where the buffers lie that the device writes to.
use phantom_fpga_final_embed.Base.{
  ℕ, true, ◌+◌, ◌≡◌, ◌≤◌, ◌<◌, ap, ◌∙◌, Option, List, get_or, get_or-tabulate, u64_mod, arith,
}
use phantom_fpga_final_embed.Driver.State.{Dev, Buffer, elems, null_buffer, buffer_at}
use phantom_fpga_final_embed.Driver.Alloc.{slice}
use phantom_fpga_final_embed.Driver.Inv.{
  Inv, IsAllocated, pool_of, pool_slices, configured-IsAllocated,
}

pub buffer_at_lem :
    {d : Dev} (i : ℕ)
    → IsAllocated d
    → i < d.desc_count
    → buffer_at d i ≡ slice (pool_of d.buffer_pool) d.buffer_pool_dma d.buffer_size i
unfolding pool_slices
buffer_at_lem {d} i a h =
    ap (λ (x : Option (List Buffer)). get_or (elems x) i null_buffer) a.slices
    ∙ get_or-tabulate d.desc_count 0 i
        (slice (pool_of d.buffer_pool) d.buffer_pool_dma d.buffer_size) null_buffer h
    ∙ ap (slice (pool_of d.buffer_pool) d.buffer_pool_dma d.buffer_size) (omega arith)

-- No two descriptors of a configured device share memory: each buffer lies in the pool, and ends
-- before the next one begins, if the pool does not wrap round the end of the bus address space.
pub buffers_disjoint :
    (d : Dev) (i j : ℕ)
    → Inv d
    → d.configured ≡ true
    → d.buffer_pool_dma + d.buffer_pool_size ≤ u64_mod
    → i < j
    → j < d.desc_count
    → let a = buffer_at d i in
      let b = buffer_at d j in
      (d.buffer_pool_dma ≤ a.dma_addr)
      × (a.dma_addr + a.size ≤ b.dma_addr)
      × (b.dma_addr + b.size ≤ d.buffer_pool_dma + d.buffer_pool_size)
buffers_disjoint d i j v conf w h k =
    let a = configured-IsAllocated v conf in
    ground (arith, a.pool_fits, a.buffer_fits, buffer_at_lem i a (omega arith), buffer_at_lem j a k)
