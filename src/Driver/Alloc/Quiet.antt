-- ===== src/Driver/Alloc/Quiet.antt =====
-- Allocating and freeing write no register.
use phantom_fpga_final_embed.Base.{
  ℕ, ◌*◌, ◌%◌, u64_mod, zero, suc, ◌≡◌, refl, ◌∙◌, Option, none, some, List, [], ◌∷◌, arith,
}
use phantom_fpga_final_embed.Driver.State.{Dev, Buffer, Block, Env, emit, release, coherent, elems}
use phantom_fpga_final_embed.Driver.Control.{runs}
use phantom_fpga_final_embed.Driver.Alloc.{
  free_each, free_pool, free_array, free_ring, alloc_array, alloc_pool, alloc_ring,
  pfpga_free_descriptors, pfpga_alloc_descriptors,
}

free_each-runs : (n : ℕ) (bs : List Buffer) (d : Dev) → runs (free_each n bs d).io ≡ runs d.io
unfolding free_each
free_each-runs zero bs d = refl
free_each-runs (suc n) [] d = refl
free_each-runs (suc n) (b ∷ bs) d = ground (
  arith,
  free_each-runs n bs d,
  free_each-runs n bs (emit (release (coherent b.size b.vaddr b.dma_addr)) d),
)

pub free-runs : (d : Dev) → runs (pfpga_free_descriptors d).io ≡ runs d.io
unfolding pfpga_free_descriptors free_pool free_array free_ring
free-runs d = ground (arith, free_each-runs d.desc_count (elems d.buffers) d)

module _ (env : Env) (n size : ℕ) where
  alloc_array-runs : (pool : Block) (d : Dev) → runs (alloc_array env n pool d).1.io ≡ runs d.io
  unfolding alloc_array
  alloc_array-runs pool d = ground (arith, free-runs d)

  alloc_pool-runs :
      (pool : Option Block) (d : Dev) → runs (alloc_pool env n size pool d).1.io ≡ runs d.io
  unfolding alloc_pool
  alloc_pool-runs none d = free-runs (record d { buffer_pool_size = size })
  alloc_pool-runs (some pool) d = alloc_array-runs pool _

module _ (env : Env) (n size : ℕ) where
  alloc_ring-runs :
      (ring : Option Block) (d : Dev) → runs (alloc_ring env n size ring d).1.io ≡ runs d.io
  unfolding alloc_ring
  alloc_ring-runs none d = refl
  alloc_ring-runs (some ring) d = alloc_pool-runs env n (n * size % u64_mod) env.pool_block _

pub alloc-runs :
    (env : Env) (n size : ℕ) (d : Dev)
    → runs (pfpga_alloc_descriptors env n size d).1.io ≡ runs d.io
unfolding pfpga_alloc_descriptors
alloc-runs env n size d =
    alloc_ring-runs env n size env.ring_block (pfpga_free_descriptors d) ∙ free-runs d
