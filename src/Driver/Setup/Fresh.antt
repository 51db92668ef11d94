-- ===== src/Driver/Setup/Fresh.antt =====
-- What the loop of pfpga_init_descriptors leaves in the ring.
use phantom_fpga_final_embed.Base.{
  ℕ, zero, suc, ◌+◌, ◌≡◌, ◌≤◌, ◌<◌, ◌∙◌, refl, List, length, get_or, set, length-set,
  get_or-set_self, get_or-set_ne, arith, ℕ_discrete,
}
use phantom_fpga_final_embed.Regs.{SgDesc}
use phantom_fpga_final_embed.Driver.State.{Buffer, null_desc}
use phantom_fpga_final_embed.Driver.Setup.{fresh_desc, fill_descriptors}

module _ (size : ℕ) (bs : List Buffer) where
  before_fill :
      (n i j : ℕ) (ring : List SgDesc)
      → j < i
      → get_or (fill_descriptors n i size bs ring) j null_desc ≡ get_or ring j null_desc
  unfolding fill_descriptors
  before_fill zero i j ring h = refl
  before_fill (suc n) i j ring h =
      before_fill n (i + 1) j (set ring i (fresh_desc size bs i)) (omega arith)
      ∙ get_or-set_ne ring (fresh_desc size bs i) null_desc (omega arith)

  pub get_or-fill_descriptors :
      (n i j : ℕ) (ring : List SgDesc)
      → i ≤ j
      → j < i + n
      → i + n ≤ length ring
      → get_or (fill_descriptors n i size bs ring) j null_desc ≡ fresh_desc size bs j
  unfolding fill_descriptors
  get_or-fill_descriptors zero i j ring p q h = absurd (omega arith)
  get_or-fill_descriptors (suc n) i j ring p q h = elim (ℕ_discrete i j) [
    | yes e ↦ rw (← e) (
        before_fill n (i + 1) i (set ring i (fresh_desc size bs i)) (omega arith)
        ∙ get_or-set_self ring i (fresh_desc size bs i) null_desc (omega arith))
    | no ne ↦
        get_or-fill_descriptors n (i + 1) j (set ring i (fresh_desc size bs i)) (omega arith)
          (omega arith) (omega (arith, length-set ring i (fresh_desc size bs i)))
  ]
