-- ===== src/Driver/Alloc/Resources.antt =====
-- What pfpga_free_descriptors and pfpga_alloc_descriptors leave behind.
use native.Mathlib.Nat.{pow-le-pow_right}
use phantom_fpga_final_embed.Base.{
  ℕ, zero, suc, ◌*◌, ◌%◌, ◌≤◌, ◌^◌, ◌-◌, ◌≡◌, refl, ap, ◌∙◌, ◌⊎◌, inl, inr, Bool, false, not, ◌&&◌,
  Option, none, some, List, [], ◌∷◌, length, bit_and, sub32, arith, length-tabulate, pow_of_mask,
  tabulate, Bool-cases, dec_lt, is_none, u64_mod,
}
use phantom_fpga_final_embed.Regs.Ring.{IsRingSize}
use phantom_fpga_final_embed.Driver.State.{
  Dev, Buffer, Block, Env, Result, ok, err, enomem, release, acquire, coherent, buffer_array, emit,
  null_desc, elems, failure,
}
use phantom_fpga_final_embed.Driver.Alloc.{
  free_each, slice, alloc_array, alloc_pool, alloc_ring, pfpga_free_descriptors,
  pfpga_alloc_descriptors,
}
use phantom_fpga_final_embed.Driver.Inv.{IsEmpty, IsAllocated, pool_slices}
use phantom_fpga_final_embed.Driver.Ioctl.{bad_desc_count, phantomfpga_buffer_size}

-- Freeing buffers one by one has effects outside only.
free_each_lem :
    (n : ℕ) (bs : List Buffer) (d : Dev)
    → free_each n bs d ≡ record d { io = (free_each n bs d).io }
unfolding free_each
free_each_lem zero bs d = refl
free_each_lem (suc n) [] d = refl
free_each_lem (suc n) (b ∷ bs) d = ground (
  arith,
  free_each_lem n bs d,
  free_each_lem n bs (emit (release (coherent b.size b.vaddr b.dma_addr)) d),
)

log_bound : (k : ℕ) → 2 ^ k ≤ 4096 → k ≤ 31
log_bound k h = elim (dec_lt k 32) [
  | yes lt ↦ omega arith
  | no ge ↦
      absurd (omega (arith, pow-le-pow_right {n = 2} (omega arith) {i = 32} {j = k} (omega arith)))
]

-- A descriptor count that SET_CFG accepts is the size of a ring.
pub accepted-IsRingSize : (n : ℕ) → bad_desc_count n ≡ false → IsRingSize n
accepted-IsRingSize n h =
    let range : (4 ≤ n) × (n ≤ 4096) × (bit_and n (sub32 n 1) ≡ 0) = ground arith in
    let minus_one : sub32 n 1 ≡ n - 1 = omega arith in
    let (k, e) = pow_of_mask n (omega arith) (rw (← minus_one) range.2) in
    record { log = k; log_le = log_bound k (omega arith); pow = e; two = omega arith }

pub free-IsEmpty : (d : Dev) → IsEmpty (pfpga_free_descriptors d)
unfolding pfpga_free_descriptors
free-IsEmpty d = ground (arith, free_each_lem d.desc_count (elems d.buffers) d)

pub free-streaming : (d : Dev) → (pfpga_free_descriptors d).streaming ≡ d.streaming
unfolding pfpga_free_descriptors
free-streaming d = ground (arith, free_each_lem d.desc_count (elems d.buffers) d)

-- The outcome of an allocation for `n` descriptors: all resources and no configuration, or nothing.
abbrev pub Outcome : ℕ → Bool → Result (Unit {0}) × Dev → Type 0
Outcome n streaming (r, d) =
    (d.streaming ≡ streaming)
    × (d.configured ≡ false)
    × (((r ≡ ok tt) × IsAllocated d × (d.desc_count ≡ n)) ⊎ ((r ≡ err enomem) × IsEmpty d))

failed : (n : ℕ) (d : Dev) → Outcome n d.streaming (err enomem, pfpga_free_descriptors d)
failed n d = (free-streaming d, (free-IsEmpty d).not_configured, inr (refl, free-IsEmpty d))

-- The state when only the buffer array is missing.
record IsPooled (n : ℕ) (b : Block) (d : Dev) : Type 0 where
  ring : length (elems d.desc_ring) ≡ n
  pool : d.buffer_pool ≡ some b.vaddr
  pool_dma : d.buffer_pool_dma ≡ b.dma
  count : d.desc_count ≡ n
  buffer_fits : d.buffer_size ≡ phantomfpga_buffer_size
  pool_fits : d.buffer_pool_size ≡ n * phantomfpga_buffer_size
  at_start : d.consumer ≡ 0
  not_configured : d.configured ≡ false

alloc_array_lem :
    (env : Env) (n : ℕ) (pool : Block) (d : Dev)
    → bad_desc_count n ≡ false
    → IsPooled n pool d
    → Outcome n d.streaming (alloc_array env n pool d)
unfolding alloc_array pool_slices
alloc_array_lem env n pool d h p = elim (Bool-cases env.array_block) [
  | inl got ↦ rw got (refl, p.not_configured, inl (refl, complete, p.count))
  | inr missed ↦ rw missed (failed n d)
]
  where
    range : (4 ≤ n) × (n ≤ 4096)
    range = ground arith

    filled : Dev
    filled = record (emit (acquire buffer_array) d) {
      buffers = some (tabulate n 0 (slice pool.vaddr pool.dma d.buffer_size));
    }

    complete : IsAllocated filled
    complete = record {
      size = rw p.count (accepted-IsRingSize n h);
      count_ge = omega (arith, range);
      count_le = omega (arith, range);
      ring_length = omega arith;
      buffers_length = rw p.count (length-tabulate n 0 (slice pool.vaddr pool.dma d.buffer_size));
      slices = rw (p.pool, p.pool_dma, p.count, pool_slices) refl;
      has_pool = ap is_none p.pool;
      buffer_fits = p.buffer_fits;
      pool_fits = omega arith;
      consumer_in = omega (arith, range);
    }

-- The state when only the ring is there.
record IsRinged (n : ℕ) (d : Dev) : Type 0 where
  ring : length (elems d.desc_ring) ≡ n
  no_pool : d.buffer_pool ≡ none
  count : d.desc_count ≡ n
  buffer_fits : d.buffer_size ≡ phantomfpga_buffer_size
  at_start : d.consumer ≡ 0
  not_configured : d.configured ≡ false

alloc_pool_lem :
    (env : Env) (n : ℕ) (pool : Option Block) (d : Dev)
    → bad_desc_count n ≡ false
    → IsRinged n d
    → Outcome n d.streaming (alloc_pool env n (n * phantomfpga_buffer_size % u64_mod) pool d)
unfolding alloc_pool
alloc_pool_lem env n none d h p = failed n (record d { buffer_pool_size = _ })
alloc_pool_lem env n (some pool) d h p = alloc_array_lem env n pool _ h (record {
  ring = p.ring;
  pool = refl;
  pool_dma = refl;
  count = p.count;
  buffer_fits = p.buffer_fits;
  pool_fits = ground arith;
  at_start = p.at_start;
  not_configured = p.not_configured;
})

alloc_ring_lem :
    (env : Env) (n : ℕ) (ring : Option Block) (d : Dev)
    → bad_desc_count n ≡ false
    → IsEmpty d
    → Outcome n d.streaming (alloc_ring env n phantomfpga_buffer_size ring d)
unfolding alloc_ring
alloc_ring_lem env n none d h p = (refl, p.not_configured, inr (refl, p))
alloc_ring_lem env n (some ring) d h p = alloc_pool_lem env n env.pool_block _ h (record {
  ring = length-tabulate n 0 (λ _. null_desc);
  no_pool = p.no_pool;
  count = refl;
  buffer_fits = refl;
  at_start = p.at_start;
  not_configured = p.not_configured;
})

-- Allocating for an accepted count gives all resources, or reports ENOMEM and leaves nothing;
-- either way the device is not configured, and streams if it did.
pub alloc-Outcome :
    (env : Env) (n : ℕ) (d : Dev)
    → bad_desc_count n ≡ false
    → Outcome n d.streaming (pfpga_alloc_descriptors env n phantomfpga_buffer_size d)
unfolding pfpga_alloc_descriptors
alloc-Outcome env n d h =
    let o = alloc_ring_lem env n env.ring_block (pfpga_free_descriptors d) h (free-IsEmpty d) in
    (o.0 ∙ free-streaming d, o.1, o.2)

-- Both coherent blocks and the array are there to be had.
abbrev pub memory_granted : Env → Bool
memory_granted env = not (is_none env.ring_block) && not (is_none env.pool_block) && env.array_block

-- Allocating succeeds if and only if all three allocations do.
pub alloc_succeeds :
    (env : Env) (n size : ℕ) (d : Dev)
    → is_none (failure (pfpga_alloc_descriptors env n size d).0) ≡ memory_granted env
unfolding pfpga_alloc_descriptors alloc_ring alloc_pool alloc_array
alloc_succeeds env n size d = ground arith
