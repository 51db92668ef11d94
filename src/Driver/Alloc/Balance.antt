-- ===== src/Driver/Alloc/Balance.antt =====
-- Allocating and freeing the SG-DMA resources keep the ledger.
use phantom_fpga_final_embed.Base.{
  ℕ, ◌*◌, ◌%◌, ◌≡◌, refl, inl, inr, true, false, Option, none, some, List, ◌∷◌, is_none,
  Option-cases, arith, u64_mod,
}
use phantom_fpga_final_embed.Driver.State.{Dev, Block, Env, Resource, coherent, buffer_array}
use phantom_fpga_final_embed.Driver.Alloc.{
  alloc_array, alloc_pool, alloc_ring, pfpga_free_descriptors, pfpga_alloc_descriptors,
}
use phantom_fpga_final_embed.Driver.Alloc.Resources.{free-IsEmpty}
use phantom_fpga_final_embed.Driver.Inv.{IsEmpty}
use phantom_fpga_final_embed.Driver.Ledger.{give_back, Balanced}

-- Giving back what was obtained last.
pub give_back_top :
    (n v p : ℕ) (rs : List Resource) → give_back (coherent n v p) (coherent n v p ∷ rs) ≡ some rs
give_back_top n v p rs = ground arith

pub give_back_next :
    (n v p : ℕ) (rs : List Resource)
    → give_back (coherent n v p) (buffer_array ∷ coherent n v p ∷ rs) ≡ some (buffer_array ∷ rs)
give_back_next n v p rs = ground arith

-- There is no array of buffers without the pool they lie in.
abbrev pub IsPooled : Dev → Type 0
IsPooled d = is_none d.buffer_pool ≡ true → is_none d.buffers ≡ true

pub free-Balanced :
    (fixtures : List Resource) (d : Dev)
    → IsPooled d
    → Balanced fixtures d
    → Balanced fixtures (pfpga_free_descriptors d)
unfolding pfpga_free_descriptors
free-Balanced fixtures d p b = ground arith

-- With nothing allocated so far, each of the three allocations adds to the ledger or undoes the ones
-- before it.
module _ (fixtures : List Resource) (env : Env) (n size : ℕ) where
  alloc_array-Balanced :
      (pool : Block) (d : Dev)
      → d.buffers ≡ none
      → is_none d.buffer_pool ≡ false
      → Balanced fixtures d
      → Balanced fixtures (alloc_array env n pool d).1
  unfolding alloc_array
  alloc_array-Balanced pool d nb p b = ground (arith, free-Balanced fixtures d (λ h. cc) b)

  alloc_pool-Balanced :
      (pool : Option Block) (d : Dev)
      → d.buffers ≡ none
      → d.buffer_pool ≡ none
      → Balanced fixtures d
      → Balanced fixtures (alloc_pool env n size pool d).1
  unfolding alloc_pool
  alloc_pool-Balanced none d nb np b =
      free-Balanced fixtures (record d { buffer_pool_size = size }) (λ h. ground arith)
        (ground arith)
  alloc_pool-Balanced (some pool) d nb np b = alloc_array-Balanced pool _ nb refl (ground arith)

pub alloc-Balanced :
    (fixtures : List Resource) (env : Env) (n size : ℕ) (d : Dev)
    → IsPooled d
    → Balanced fixtures d
    → Balanced fixtures (pfpga_alloc_descriptors env n size d).1
unfolding pfpga_alloc_descriptors alloc_ring
alloc-Balanced fixtures env n size d p b = elim (Option-cases env.ring_block) [
  | inl none_left ↦ rw none_left (free-Balanced fixtures d p b)
  | inr (ring, e) ↦ rw e (
      alloc_pool-Balanced fixtures env n (n * size % u64_mod) env.pool_block _ empty.no_buffers
        empty.no_pool (ground (arith, empty, free-Balanced fixtures d p b)))
]
  where
    empty : IsEmpty (pfpga_free_descriptors d)
    empty = free-IsEmpty d
