-- ===== src/Driver/Card/Msix/Vectors.antt =====
-- Which vectors pfpga_setup_msix sets up, and when it succeeds.
use phantom_fpga_final_embed.Base.{
  ℕ, ◌≡◌, Bool, true, false, not, ◌&&◌, ◌||◌, Option, none, some, List, ltb, is_none, if◌then◌else◌,
  arith,
}
use phantom_fpga_final_embed.Regs.{
  msix_vectors, msix_vec_complete, msix_vec_error, msix_vec_no_desc,
}
use phantom_fpga_final_embed.Driver.State.{Result, ok, err, failure, Resource}
use phantom_fpga_final_embed.Driver.Ledger.{Balanced}
use phantom_fpga_final_embed.Driver.Card.Msix.{
  Card, Bus, setup_no_desc, setup_error, setup_complete, setup_vectors, pfpga_setup_msix,
}
use phantom_fpga_final_embed.Driver.Card.Msix.Lines.{VectorsOutcome, setup_msix-Outcome}

-- The vectors that the kernel gives: all of them, or else one, or none.
abbrev pub vectors : Bus → ℕ
vectors bus =
    if is_none (bus.alloc_irq_vectors msix_vectors)
    then msix_vectors
    else if is_none (bus.alloc_irq_vectors 1)
    then 1
    else 0

-- A vector has a number, and its line can be had.
abbrev pub grants : Bus → ℕ → Bool
grants bus k = is_none (failure (bus.irq_vector k)) && is_none (bus.request_irq k)

-- So do all those that the kernel gives.
abbrev pub grants_all : Bus → Bool
grants_all bus =
    ltb msix_vec_complete (vectors bus)
    && grants bus msix_vec_complete
    && (not (ltb msix_vec_error (vectors bus)) || grants bus msix_vec_error)
    && (not (ltb msix_vec_no_desc (vectors bus)) || grants bus msix_vec_no_desc)

abbrev of_result : Result ℕ → Option ℕ
of_result (ok n) = some n
of_result (err _) = none

-- The line that a vector is to have: its number, if there is such a vector.
abbrev pub line_of : Bus → ℕ → Option ℕ
line_of bus k = if ltb k (vectors bus) then of_result (bus.irq_vector k) else none

-- Success, with a line for each vector, if and only if all are granted.
abbrev pub SetUp : Bus → Result (Unit {0}) × Card → Type 0
SetUp bus (ok _, c) =
    (grants_all bus ≡ true)
    × (c.num_vectors ≡ vectors bus)
    × (c.irq_complete ≡ line_of bus msix_vec_complete)
    × (c.irq_error ≡ line_of bus msix_vec_error)
    × (c.irq_no_desc ≡ line_of bus msix_vec_no_desc)
    × (is_none c.irq_complete ≡ not (ltb msix_vec_complete (vectors bus)))
    × (is_none c.irq_error ≡ not (ltb msix_vec_error (vectors bus)))
    × (is_none c.irq_no_desc ≡ not (ltb msix_vec_no_desc (vectors bus)))
SetUp bus (err e, c) =
    (grants_all bus ≡ false)
    × (c.num_vectors ≡ 0)
    × (c.irq_complete ≡ none)
    × (c.irq_error ≡ none)
    × (c.irq_no_desc ≡ none)

setup_lem : (bus : Bus) (c : Card) → SetUp bus (pfpga_setup_msix bus c)
unfolding pfpga_setup_msix setup_vectors setup_complete setup_error setup_no_desc
setup_lem bus c = ground arith

-- From a balanced state, pfpga_setup_msix succeeds if and only if the kernel gives all three vectors, or
-- else one, and each vector that it gives has a number whose line can be requested. It then has in hand
-- the vectors and, for each of them, the line of its number, and the card records them; if it fails, it
-- has given back all it obtained, and the card records none. The rest of the device does not change.
pub setup_msix-SetUp :
    (base : List Resource) (bus : Bus) (c : Card)
    → Balanced base c.dev
    → VectorsOutcome base c.dev (pfpga_setup_msix bus c) × SetUp bus (pfpga_setup_msix bus c)
setup_msix-SetUp base bus c b = (setup_msix-Outcome base bus c b, setup_lem bus c)
