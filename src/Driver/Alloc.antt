-- ===== src/Driver/Alloc.antt =====
-- The SG-DMA resources: pfpga_free_descriptors and pfpga_alloc_descriptors.
pub mod Resources
pub mod Balance
pub mod Quiet
use phantom_fpga_final_embed.Base.{
  ℕ, ◌+◌, ◌*◌, ◌%◌, Bool, true, false, Option, none, some, List, [], ◌∷◌, ◌==◌, if◌then◌else◌,
  add64, u64_mod, tabulate,
}
use phantom_fpga_final_embed.Regs.{SgDesc, desc_size}
use phantom_fpga_final_embed.Driver.State.{
  Dev, Buffer, Block, Env, Result, ok, err, enomem, acquire, release, coherent, buffer_array, emit,
  null_desc,
}
use phantom_fpga_final_embed.Driver.Setup.{reset_indices}

-- The fallback loop of pfpga_free_descriptors, over buffers with allocations of their own.
free_each : ℕ → List Buffer → Dev → Dev
free_each ℕ.zero bs d = d
free_each (ℕ.suc n) [] d = d
free_each (ℕ.suc n) (b ∷ bs) d =
    free_each n bs
      (if b.vaddr == 0 then d else emit (release (coherent b.size b.vaddr b.dma_addr)) d)

free_pool : Option ℕ → Option (List Buffer) → Dev → Dev
unfolding free_each
free_pool (some pool) buffers d =
    let d = emit (release (coherent d.buffer_pool_size pool d.buffer_pool_dma)) d in
    record d { buffer_pool = none; buffer_pool_dma = 0; buffer_pool_size = 0 }
free_pool none (some bs) d = free_each d.desc_count bs d
free_pool none none d = d

free_array : Option (List Buffer) → Dev → Dev
free_array (some bs) d = record (emit (release buffer_array) d) { buffers = none }
free_array none d = d

-- `desc_count * sizeof(*desc_ring)`, as a size_t
abbrev pub ring_size : ℕ → ℕ
ring_size desc_count = desc_count * desc_size % u64_mod

free_ring : Option (List SgDesc) → Dev → Dev
free_ring (some ring) d =
    let d =
      emit (release (coherent (ring_size d.desc_count) d.desc_ring_vaddr d.desc_ring_dma)) d in
    record d { desc_ring = none; desc_ring_dma = 0; desc_ring_vaddr = 0 }
free_ring none d = d

unfoldable pub pfpga_free_descriptors : Dev → Dev
unfolding free_pool free_array free_ring
pfpga_free_descriptors d =
    let d = free_pool d.buffer_pool d.buffers d in
    let d = free_array d.buffers d in
    let d = free_ring d.desc_ring d in
    let d = record d { desc_count = 0; buffer_size = 0; configured = false } in reset_indices d

-- Entry `i` of the buffer array: its slice of the pool.
abbrev pub slice : ℕ → ℕ → ℕ → ℕ → Buffer
slice pool pool_dma buffer_size i = record {
  vaddr = add64 pool (i * buffer_size);
  dma_addr = add64 pool_dma (i * buffer_size);
  size = buffer_size;
}

-- The last of the three allocations.
alloc_array : Env → ℕ → Block → Dev → Result (Unit {0}) × Dev
alloc_array env desc_count pool d =
    let bs = tabulate desc_count 0 (slice pool.vaddr pool.dma d.buffer_size) in
    if env.array_block
    then (ok tt, record (emit (acquire buffer_array) d) { buffers = some bs })
    else (err enomem, pfpga_free_descriptors d)

alloc_pool : Env → ℕ → ℕ → Option Block → Dev → Result (Unit {0}) × Dev
unfolding alloc_array
alloc_pool env desc_count pool_size none d =
    (err enomem, pfpga_free_descriptors (record d { buffer_pool_size = pool_size }))
alloc_pool env desc_count pool_size (some pool) d =
    let d = emit (acquire (coherent pool_size pool.vaddr pool.dma)) d in
    let d = record d {
      buffer_pool = some pool.vaddr;
      buffer_pool_dma = pool.dma;
      buffer_pool_size = pool_size;
    } in
    alloc_array env desc_count pool d

alloc_ring : Env → ℕ → ℕ → Option Block → Dev → Result (Unit {0}) × Dev
unfolding alloc_pool
alloc_ring env desc_count buffer_size none d = (err enomem, d)
alloc_ring env desc_count buffer_size (some ring) d =
    let d = emit (acquire (coherent (ring_size desc_count) ring.vaddr ring.dma)) d in
    let d = record d {
      desc_ring = some (tabulate desc_count 0 (λ _. null_desc));
      desc_ring_dma = ring.dma;
      desc_ring_vaddr = ring.vaddr;
      desc_count = desc_count;
      buffer_size = buffer_size;
    } in
    alloc_pool env desc_count (desc_count * buffer_size % u64_mod) env.pool_block d

unfoldable pub pfpga_alloc_descriptors : Env → ℕ → ℕ → Dev → Result (Unit {0}) × Dev
unfolding alloc_ring
pfpga_alloc_descriptors env desc_count buffer_size d =
    let d = pfpga_free_descriptors d in alloc_ring env desc_count buffer_size env.ring_block d
