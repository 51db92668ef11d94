-- ===== src/Driver/Card/Msix/Lines.antt =====
-- The interrupt lines and vectors in the ledger: pfpga_setup_msix obtains those that the card
-- records, or gives back all it obtained; pfpga_teardown_msix gives them back.
use phantom_fpga_final_embed.Base.{
  ℕ, ◌≡◌, ◌<◌, refl, inl, inr, Option, none, some, List, [], ◌∷◌, ◌++◌, ltb, arith, Option-cases,
  Bool-cases,
}
use phantom_fpga_final_embed.Regs.{msix_vectors, msix_vec_complete, msix_vec_error}
use phantom_fpga_final_embed.Driver.State.{
  Dev, Result, Result-cases, ok, err, Resource, acquire, irq_vectors, irq_line,
}
use phantom_fpga_final_embed.Driver.Ledger.{Balanced}
use phantom_fpga_final_embed.Driver.Card.Msix.{
  Card, Bus, put, setup_no_desc, setup_error, setup_complete, setup_vectors, pfpga_setup_msix,
  pfpga_teardown_msix,
}

-- The line of an interrupt number, and those of a card, the latest first.
abbrev pub line : Option ℕ → List Resource
line none = []
line (some n) = irq_line n ∷ []

abbrev pub lines : Card → List Resource
lines c = line c.irq_no_desc ++ (line c.irq_error ++ line c.irq_complete)

-- Only the effects of the device differ.
abbrev pub OnlyIo : Dev → Dev → Type 0
OnlyIo d e = e ≡ record d { io = e.io }

abbrev pub VectorsOutcome : List Resource → Dev → Result (Unit {0}) × Card → Type 0
VectorsOutcome base d (ok _, c) =
    Balanced (lines c ++ irq_vectors ∷ base) c.dev × (0 < c.num_vectors) × OnlyIo d c.dev
VectorsOutcome base d (err e, c) = Balanced base c.dev × OnlyIo d c.dev

module _ (base : List Resource) (d : Dev) (bus : Bus) where
  setup_no_desc_lem :
      (c : Card)
      → c.irq_no_desc ≡ none
      → 0 < c.num_vectors
      → OnlyIo d c.dev
      → Balanced (lines c ++ irq_vectors ∷ base) c.dev
      → VectorsOutcome base d (setup_no_desc bus c)
  unfolding setup_no_desc
  setup_no_desc_lem c n v o b = ground arith

  setup_error_lem :
      (c : Card)
      → c.irq_error ≡ none
      → c.irq_no_desc ≡ none
      → 0 < c.num_vectors
      → OnlyIo d c.dev
      → Balanced (lines c ++ irq_vectors ∷ base) c.dev
      → VectorsOutcome base d (setup_error bus c)
  unfolding setup_error
  setup_error_lem c e n v o b = elim (Bool-cases (ltb msix_vec_error c.num_vectors)) [
    | inl more ↦ elim (Result-cases (bus.irq_vector msix_vec_error)) [
      | inl (x, q) ↦ ground arith
      | inr (i, q) ↦ elim (Option-cases (bus.request_irq msix_vec_error)) [
        | inl granted ↦
            rw (more, q, granted)
              (setup_no_desc_lem (put (acquire (irq_line i)) (record c { irq_error = some i })) n v
                (ground arith) (ground arith))
        | inr (x, refused) ↦ ground arith
      ]
    ]
    | inr fewer ↦ rw fewer (setup_no_desc_lem c n v o b)
  ]

  setup_complete_lem :
      (c : Card)
      → c.irq_complete ≡ none
      → c.irq_error ≡ none
      → c.irq_no_desc ≡ none
      → 0 < c.num_vectors
      → OnlyIo d c.dev
      → Balanced (irq_vectors ∷ base) c.dev
      → VectorsOutcome base d (setup_complete bus c)
  unfolding setup_complete
  setup_complete_lem c f e n v o b = elim (Result-cases (bus.irq_vector msix_vec_complete)) [
    | inl (x, q) ↦ ground arith
    | inr (i, q) ↦ elim (Option-cases (bus.request_irq msix_vec_complete)) [
      | inl granted ↦
          rw (q, setup_complete, granted)
            (setup_error_lem (put (acquire (irq_line i)) (record c { irq_complete = some i })) e n v
              (ground arith) (ground arith))
      | inr (x, refused) ↦ ground arith
    ]
  ]

  start_of_setup :
      (n : ℕ) (c : Card)
      → c.dev ≡ d
      → c.irq_complete ≡ none
      → c.irq_error ≡ none
      → c.irq_no_desc ≡ none
      → 0 < n
      → Balanced base d
      → VectorsOutcome base d
          (setup_complete bus (record (put (acquire irq_vectors) c) { num_vectors = n }))
  start_of_setup n c s f e m h b = setup_complete_lem _ f e m h (ground arith) (ground arith)

-- From a balanced state, pfpga_setup_msix has in hand the vectors and the lines that the card records, or
-- fails and has given back all it obtained; the rest of the device does not change.
pub setup_msix-Outcome :
    (base : List Resource) (bus : Bus) (c : Card)
    → Balanced base c.dev
    → VectorsOutcome base c.dev (pfpga_setup_msix bus c)
unfolding pfpga_setup_msix setup_vectors
setup_msix-Outcome base bus c b = elim (Option-cases (bus.alloc_irq_vectors msix_vectors)) [
  | inl all ↦
      rw all
        (start_of_setup base c.dev bus msix_vectors cleared refl refl refl refl (omega arith) b)
  | inr (x, some_missing) ↦ elim (Option-cases (bus.alloc_irq_vectors 1)) [
    | inl one ↦
        rw (some_missing, one)
          (start_of_setup base c.dev bus 1 cleared refl refl refl refl (omega arith) b)
    | inr (y, missing) ↦ ground arith
  ]
]
  where
    cleared : Card
    cleared = record c {
      num_vectors = 0;
      irq_complete = none;
      irq_error = none;
      irq_no_desc = none;
    }

pub teardown_lem :
    (base : List Resource) (c : Card)
    → 0 < c.num_vectors
    → Balanced (lines c ++ irq_vectors ∷ base) c.dev
    → Balanced base (pfpga_teardown_msix c).dev × OnlyIo c.dev (pfpga_teardown_msix c).dev
unfolding pfpga_teardown_msix
teardown_lem base c v b = ground arith

pub setup_msix_regs :
    (bus : Bus) (c : Card) → (pfpga_setup_msix bus c).1.regs_mapped ≡ c.regs_mapped
unfolding pfpga_setup_msix setup_vectors setup_complete setup_error setup_no_desc
setup_msix_regs bus c = ground arith
