-- ===== src/Driver/Ledger.antt =====
-- The resources of the driver as a ledger: what the effects so far obtained and have not given back,
-- against what `struct phantomfpga_dev` says it holds.
use phantom_fpga_final_embed.Base.{
  ℕ, ◌≡◌, Bool, true, false, ◌&&◌, Option, none, some, List, [], ◌∷◌, ◌++◌, ◌==◌, if◌then◌else◌,
}
use phantom_fpga_final_embed.Driver.State.{
  Dev, Buffer, Io, Resource, acquire, release, coherent, buffer_array, private_data, pci_device,
  bar0_region, bar0_map, irq_vectors, irq_line, minor_number, char_dev, dev_node,
}
use phantom_fpga_final_embed.Driver.Alloc.{ring_size}
use phantom_fpga_final_embed.Regs.{SgDesc}

abbrev pub same : Resource → Resource → Bool
same (coherent n v p) (coherent m w q) = n == m && v == w && p == q
same buffer_array buffer_array = true
same private_data private_data = true
same pci_device pci_device = true
same bar0_region bar0_region = true
same bar0_map bar0_map = true
same irq_vectors irq_vectors = true
same (irq_line n) (irq_line m) = n == m
same (minor_number n) (minor_number m) = n == m
same (char_dev n) (char_dev m) = n == m
same (dev_node n) (dev_node m) = n == m
same _ _ = false

-- The memory that SET_CFG exchanges, and the rest, which lasts from probe to remove.
pub data Kind : Type 0 where
  memory fixture : Kind

abbrev pub is_of : Kind → Resource → Bool
is_of memory (coherent _ _ _) = true
is_of memory buffer_array = true
is_of memory _ = false
is_of fixture (coherent _ _ _) = false
is_of fixture buffer_array = false
is_of fixture _ = true

abbrev pub keep : Resource → Option (List Resource) → Option (List Resource)
keep r none = none
keep r (some rs) = some (r ∷ rs)

-- One resource less; `none` if it is not there to give back.
abbrev pub give_back : Resource → List Resource → Option (List Resource)
give_back r [] = none
give_back r (x ∷ xs) = if same r x then some xs else keep x (give_back r xs)

abbrev pub settle : Kind → Io → Option (List Resource) → Option (List Resource)
settle k e none = none
settle k (acquire r) (some rs) = if is_of k r then some (r ∷ rs) else some rs
settle k (release r) (some rs) = if is_of k r then give_back r rs else some rs
settle k _ (some rs) = some rs

-- What the effects, the latest first, leave in hand of a kind: `none` once something was given back
-- that was not in hand, twice for instance.
abbrev pub in_hand : Kind → List Io → Option (List Resource)
in_hand k [] = some []
in_hand k (e ∷ io) = settle k e (in_hand k io)

abbrev array_part : Option (List Buffer) → List Resource
array_part none = []
array_part (some bs) = buffer_array ∷ []

abbrev pool_part : Option ℕ → ℕ → ℕ → List Resource
pool_part none size dma = []
pool_part (some pool) size dma = coherent size pool dma ∷ []

abbrev ring_part : Option (List SgDesc) → ℕ → ℕ → ℕ → List Resource
ring_part none size vaddr dma = []
ring_part (some ring) size vaddr dma = coherent size vaddr dma ∷ []

-- What the fields of the device say it holds.
abbrev pub held : Dev → List Resource
held d =
    array_part d.buffers
    ++ (pool_part d.buffer_pool d.buffer_pool_size d.buffer_pool_dma
        ++ ring_part d.desc_ring (ring_size d.desc_count) d.desc_ring_vaddr d.desc_ring_dma)

-- The memory in hand is what the fields record, and the fixtures in hand are those given.
abbrev pub Balanced : List Resource → Dev → Type 0
Balanced fixtures d = (in_hand memory d.io ≡ some (held d)) × (in_hand fixture d.io ≡ some fixtures)
