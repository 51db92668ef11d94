-- ===== src/Driver/Inv.antt =====
-- The invariant of `struct phantomfpga_dev`, and that each function keeps it.
pub mod Control
pub mod Frames
pub mod Ioctl
pub mod Step
pub mod Buffers
use phantom_fpga_final_embed.Base.{
  ℕ, zero, suc, ◌+◌, ◌-◌, ◌*◌, ◌%◌, ◌≤◌, ◌<◌, ◌≡◌, refl, ◌⊎◌, inl, inr, Bool, true, false, none,
  some, Option, subst, sym, ap, ◌∙◌, List, ◌∷◌, length, is_none, length-set, sub32, arith, tabulate,
}
use phantom_fpga_final_embed.Regs.{SgDesc, min_desc_count, max_desc_count, reg_desc_head}
use phantom_fpga_final_embed.Regs.Ring.{IsRingSize, add_mask, ring-le}
use phantom_fpga_final_embed.Driver.State.{
  Dev, Buffer, Env, elems, iowrite32, wmb, set_control, null_desc,
}
use phantom_fpga_final_embed.Driver.Setup.{
  fill_descriptors, pfpga_submit_descriptors, pfpga_init_descriptors,
}
use phantom_fpga_final_embed.Driver.Alloc.{slice}
use phantom_fpga_final_embed.Driver.Ioctl.{phantomfpga_buffer_size}

abbrev pub pool_of : Option ℕ → ℕ
pool_of none = 0
pool_of (some pool) = pool

-- The slices of the pool, one for each descriptor.
unfoldable pub pool_slices : Option ℕ → ℕ → ℕ → ℕ → List Buffer
pool_slices pool dma size n = tabulate n 0 (slice (pool_of pool) dma size)

-- Nothing is allocated.
pub record IsEmpty (d : Dev) : Type 0 where
  pub no_ring : d.desc_ring ≡ none
  pub no_buffers : d.buffers ≡ none
  pub no_pool : d.buffer_pool ≡ none
  pub no_count : d.desc_count ≡ 0
  pub at_start : d.consumer ≡ 0
  pub not_configured : d.configured ≡ false

-- A ring of a size that the device takes, and a pool with a slice for each descriptor.
pub record IsAllocated (d : Dev) : Type 0 where
  pub size : IsRingSize d.desc_count
  pub count_ge : min_desc_count ≤ d.desc_count
  pub count_le : d.desc_count ≤ max_desc_count
  pub ring_length : length (elems d.desc_ring) ≡ d.desc_count
  pub buffers_length : length (elems d.buffers) ≡ d.desc_count
  pub slices :
      d.buffers ≡ some (pool_slices d.buffer_pool d.buffer_pool_dma d.buffer_size d.desc_count)
  pub has_pool : is_none d.buffer_pool ≡ false
  pub buffer_fits : d.buffer_size ≡ phantomfpga_buffer_size
  pub pool_fits : d.buffer_pool_size ≡ d.desc_count * phantomfpga_buffer_size
  pub consumer_in : d.consumer < d.desc_count

-- All or none of the resources are there; once configured, all descriptors but one lie between
-- the consumer and the head; streaming wants a configuration.
pub record Inv (d : Dev) : Type 0 where
  pub resources : IsEmpty d ⊎ IsAllocated d
  pub one_free : d.configured ≡ true → (d.desc_head + 1) % d.desc_count ≡ d.consumer
  pub running : d.streaming ≡ true → d.configured ≡ true

-- The state that a call leaves satisfies the invariant.
abbrev pub Leaves {ℓ} : {A : Type ℓ} → A × Dev → Type 0
Leaves r = Inv r.1

pub submit_lem :
    (d : Dev) (count : ℕ)
    → IsRingSize d.desc_count
    → 0 < count
    → pfpga_submit_descriptors count d ≡ record d {
      desc_head = (d.desc_head + count) % d.desc_count;
      io = iowrite32 reg_desc_head ((d.desc_head + count) % d.desc_count) ∷ wmb ∷ d.io;
    }
unfolding pfpga_submit_descriptors
submit_lem d count r h = ground (arith, r.two, add_mask r d.desc_head count)

pub length-fill_descriptors :
    (n i size : ℕ) (bs : List Buffer) (ring : List SgDesc)
    → length (fill_descriptors n i size bs ring) ≡ length ring
unfolding fill_descriptors
length-fill_descriptors zero i size bs ring = refl
length-fill_descriptors (suc n) i size bs ring =
    rw (length-fill_descriptors n (i + 1) size bs, length-set)

pub init_lem :
    (d : Dev)
    → IsAllocated d
    → let head = (d.desc_head + (d.desc_count - 1)) % d.desc_count in
      pfpga_init_descriptors d ≡ record d {
        desc_ring =
            some
              (fill_descriptors d.desc_count 0 d.buffer_size (elems d.buffers) (elems d.desc_ring));
        desc_head = head;
        io = iowrite32 reg_desc_head head ∷ wmb ∷ d.io;
      }
unfolding pfpga_init_descriptors
init_lem d a = ground (
  arith,
  minus_one,
  submit_lem (record d { desc_ring = some filled }) (d.desc_count - 1) a.size (omega arith),
)
  where
    filled : List SgDesc
    filled = fill_descriptors d.desc_count 0 d.buffer_size (elems d.buffers) (elems d.desc_ring)

    minus_one : sub32 d.desc_count 1 ≡ d.desc_count - 1
    minus_one = omega arith

-- Two states with the same resources; the contents of the ring may differ.
pub record Same (d e : Dev) : Type 0 where
  pub count : e.desc_count ≡ d.desc_count
  pub ring : length (elems e.desc_ring) ≡ length (elems d.desc_ring)
  pub buffers : e.buffers ≡ d.buffers
  pub pool : e.buffer_pool ≡ d.buffer_pool
  pub pool_dma : e.buffer_pool_dma ≡ d.buffer_pool_dma
  pub each : e.buffer_size ≡ d.buffer_size
  pub total : e.buffer_pool_size ≡ d.buffer_pool_size

pub Same-IsAllocated :
    {d e : Dev} → Same d e → IsAllocated d → e.consumer < d.desc_count → IsAllocated e
Same-IsAllocated {d} {e} s a h = record {
  size = subst IsRingSize (sym s.count) a.size;
  count_ge = omega (arith, s.count, a.count_ge);
  count_le = omega (arith, s.count, a.count_le);
  ring_length = s.ring ∙ a.ring_length ∙ sym s.count;
  buffers_length =
      ap (λ (x : Option (List Buffer)). length (elems x)) s.buffers
      ∙ a.buffers_length
      ∙ sym s.count;
  slices = cc (s.buffers, a.slices, s.pool, s.pool_dma, s.each, s.count);
  has_pool = ap is_none s.pool ∙ a.has_pool;
  buffer_fits = s.each ∙ a.buffer_fits;
  pool_fits = s.total ∙ a.pool_fits ∙ ap (λ (t : ℕ). t * phantomfpga_buffer_size) (sym s.count);
  consumer_in = omega (arith, s.count, h);
}

-- While the device is configured it has its resources.
pub configured-IsAllocated : {d : Dev} → Inv d → d.configured ≡ true → IsAllocated d
configured-IsAllocated v c = elim v.resources [ inl e ↦ cc | inr a ↦ a ]

-- Two states that differ in nothing the invariant reads, but perhaps in streaming.
pub record Alike (d e : Dev) : Type 0 where
  pub ring : e.desc_ring ≡ d.desc_ring
  pub count : e.desc_count ≡ d.desc_count
  pub buffers : e.buffers ≡ d.buffers
  pub pool : e.buffer_pool ≡ d.buffer_pool
  pub pool_dma : e.buffer_pool_dma ≡ d.buffer_pool_dma
  pub each : e.buffer_size ≡ d.buffer_size
  pub total : e.buffer_pool_size ≡ d.buffer_pool_size
  pub consumer : e.consumer ≡ d.consumer
  pub head : e.desc_head ≡ d.desc_head
  pub configured : e.configured ≡ d.configured

pub Alike-Inv : {d e : Dev} → Alike d e → Inv d → (e.streaming ≡ true → e.configured ≡ true) → Inv e
Alike-Inv {d} {e} s v h = record {
  resources = elim v.resources [
    | inl f ↦ inl (ground (arith, s, f))
    | inr a ↦ inr (Same-IsAllocated same a (omega (arith, s.consumer, a.consumer_in)))
  ];
  one_free = ground (arith, s, v.one_free);
  running = h;
}
  where
    same : Same d e
    same = ground (arith, s)

pub quiet-Inv : {d e : Dev} → Inv d → Alike d e → e.streaming ≡ d.streaming → Inv e
quiet-Inv v s same = Alike-Inv s v (ground (arith, s, same, v.running))
