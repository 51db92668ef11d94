-- ===== src/Driver/Card/Ledger.antt =====
-- Nothing that probe obtains is lost: a probe that fails gives all of it back, and remove gives back
-- all that a probe and the calls after it have obtained.
use phantom_fpga_final_embed.Base.{
  ◌≡◌, ◌<◌, refl, ◌∙◌, inl, inr, true, false, some, List, [], ◌∷◌, ◌++◌, arith,
}
use phantom_fpga_final_embed.Regs.{default_desc_count}
use phantom_fpga_final_embed.Driver.State.{
  Dev, Env, Io, Errno, Result, ok, err, Resource, acquire, private_data, pci_device, bar0_region,
  bar0_map, irq_vectors, minor_number, char_dev, dev_node,
}
use phantom_fpga_final_embed.Driver.Control.{pfpga_soft_reset}
use phantom_fpga_final_embed.Driver.Alloc.Resources.{Outcome, alloc-Outcome, free-IsEmpty}
use phantom_fpga_final_embed.Driver.Alloc.Balance.{IsPooled, free-Balanced, alloc-Balanced}
use phantom_fpga_final_embed.Driver.Ioctl.{phantomfpga_buffer_size}
use phantom_fpga_final_embed.Driver.Inv.{Inv, IsEmpty, IsAllocated, Same-IsAllocated}
use phantom_fpga_final_embed.Driver.Ledger.{in_hand, Balanced, memory, fixture}
use phantom_fpga_final_embed.Driver.Card.Msix.{
  Card, Bus, put, pfpga_setup_msix, pfpga_teardown_msix,
}
use phantom_fpga_final_embed.Driver.Card.Msix.Lines.{
  lines, OnlyIo, VectorsOutcome, setup_msix-Outcome, setup_msix_regs, teardown_lem,
}
use phantom_fpga_final_embed.Driver.Card.{
  err_ida, err_cdev, add_node, add_cdev, pfpga_create_cdev, err_free, err_disable, err_release,
  err_unmap, err_msix, err_desc, default_config, probe_cdev, probe_desc, probe_alloc, probe_mask,
  probe_map, probe_region, probe_enable, new_card, phantomfpga_probe,
}

-- Nothing is in hand.
abbrev pub Settled : List Io → Type 0
Settled io = (in_hand memory io ≡ some []) × (in_hand fixture io ≡ some [])

-- What is in hand once BAR0 is mapped, and once the character device is there.
abbrev pub mapped : List Resource
mapped = bar0_map ∷ bar0_region ∷ pci_device ∷ private_data ∷ []

abbrev pub fixtures : Card → List Resource
fixtures c =
    dev_node c.minor ∷ char_dev c.minor ∷ minor_number c.minor ∷ (lines c ++ irq_vectors ∷ mapped)

abbrev pub ProbeOutcome : Result Card × List Io → Type 0
ProbeOutcome (ok c, io) =
    (io ≡ c.dev.io)
    × Balanced (fixtures c) c.dev
    × Inv c.dev
    × (0 < c.num_vectors)
    × (c.regs_mapped ≡ true)
ProbeOutcome (err e, io) = Settled io

err_unmap_lem :
    (e : Errno) (c : Card) → IsEmpty c.dev → Balanced mapped c.dev → Settled (err_unmap e c).1
unfolding err_unmap err_release err_disable err_free
err_unmap_lem e c m b = ground (arith, m)

-- The state of a card with its vectors.
record IsWired (c : Card) : Type 0 where
  vectors : 0 < c.num_vectors
  regs : c.regs_mapped ≡ true
  balance : Balanced (lines c ++ irq_vectors ∷ mapped) c.dev

err_msix_lem : (e : Errno) (c : Card) → IsEmpty c.dev → IsWired c → Settled (err_msix e c).1
unfolding err_msix
err_msix_lem e c m w =
    let (b, o) = teardown_lem mapped c w.vectors w.balance in
    err_unmap_lem e (pfpga_teardown_msix c) (ground (arith, m, o)) b

err_desc_lem : (e : Errno) (c : Card) → IsPooled c.dev → IsWired c → Settled (err_desc e c).1
unfolding err_desc
err_desc_lem e c p w =
    err_msix_lem e _ (free-IsEmpty c.dev)
      (record { vectors = w.vectors; regs = w.regs; balance = free-Balanced _ c.dev p w.balance })

CdevOutcome : Dev → Result (Unit {0}) × Card → Type 0
CdevOutcome d (ok _, c) =
    Balanced (fixtures c) c.dev × OnlyIo d c.dev × (0 < c.num_vectors) × (c.regs_mapped ≡ true)
CdevOutcome d (err e, c) = IsWired c × OnlyIo d c.dev

create_cdev_lem : (bus : Bus) (c : Card) → IsWired c → CdevOutcome c.dev (pfpga_create_cdev bus c)
unfolding CdevOutcome pfpga_create_cdev add_cdev add_node err_cdev err_ida
create_cdev_lem bus c w = ground (arith, w)

configured_later :
    (d : Dev) (c : Card)
    → IsAllocated d
    → d.desc_count ≡ default_desc_count
    → OnlyIo (pfpga_soft_reset d) c.dev
    → Inv (default_config c).dev
unfolding default_config pfpga_soft_reset
configured_later d c a n o = record {
  resources = inr (Same-IsAllocated {d = d} (ground (arith, a)) a (ground (arith, a.count_ge)));
  one_free = λ h. cc;
  running = λ h. cc;
}

probe_cdev_lem :
    (d : Dev) (r : Result (Unit {0}) × Card)
    → IsAllocated d
    → d.desc_count ≡ default_desc_count
    → CdevOutcome (pfpga_soft_reset d) r
    → ProbeOutcome (probe_cdev r)
unfolding CdevOutcome probe_cdev default_config pfpga_soft_reset
probe_cdev_lem d (ok _, c) a n (b, o, v, m) = (refl, ground arith, configured_later d c a n o, v, m)
probe_cdev_lem d (err e, c) a n (w, o) = err_desc_lem e c (λ h. ground (arith, a)) w

soft_reset-Balanced :
    (rs : List Resource) (d : Dev) → Balanced rs d → Balanced rs (pfpga_soft_reset d)
unfolding pfpga_soft_reset
soft_reset-Balanced rs d b = ground arith

probe_desc_lem :
    (bus : Bus) (c : Card) (r : Result (Unit {0}) × Dev)
    → Outcome default_desc_count false r
    → 0 < c.num_vectors
    → c.regs_mapped ≡ true
    → Balanced (lines c ++ irq_vectors ∷ mapped) r.1
    → ProbeOutcome (probe_desc bus c r)
unfolding probe_desc
probe_desc_lem bus c (ok _, d) (s, q, inl (_, a, n)) v m b = probe_cdev_lem d _ a n (
    create_cdev_lem bus (record c { dev = pfpga_soft_reset d })
      (record { vectors = v; regs = m; balance = soft_reset-Balanced _ d b }))
probe_desc_lem bus c (ok _, d) (s, q, inr (e, _)) v m b = cc
probe_desc_lem bus c (err x, d) (s, q, inl (e, _, _)) v m b = cc
probe_desc_lem bus c (err x, d) (s, q, inr (_, e)) v m b =
    err_msix_lem x (record c { dev = d }) e (record { vectors = v; regs = m; balance = b })

probe_alloc_lem :
    (env : Env) (bus : Bus) (d : Dev) (r : Result (Unit {0}) × Card)
    → IsEmpty d
    → d.streaming ≡ false
    → r.1.regs_mapped ≡ true
    → VectorsOutcome mapped d r
    → ProbeOutcome (probe_alloc env bus r)
unfolding probe_alloc
probe_alloc_lem env bus d (err x, c) e s m (b, o) = err_unmap_lem x c (ground (arith, e)) b
probe_alloc_lem env bus d (ok _, c) e s m (b, v, o) =
    let idle : c.dev.streaming ≡ false = ground arith in
    let outcome = alloc-Outcome env default_desc_count c.dev (ground arith) in
    probe_desc_lem bus c _ (outcome.0 ∙ idle, outcome.1, outcome.2) v m
      (alloc-Balanced _ env default_desc_count phantomfpga_buffer_size c.dev
        (λ h. ground (arith, e)) b)

-- The card when BAR0 is mapped.
mapped_card : Card
mapped_card =
    put (acquire bar0_map)
      (record (put (acquire bar0_region)
        (put (acquire pci_device) (put (acquire private_data) new_card))) { regs_mapped = true })

-- A probe that fails has given back all it obtained: memory, interrupt lines and vectors, BAR0, the
-- minor number and the device structure. One that succeeds has in hand what the new card records, and
-- leaves the device in a state that satisfies the invariant, whatever the kernel answers.
pub probe-Outcome : (env : Env) (bus : Bus) → ProbeOutcome (phantomfpga_probe env bus)
unfolding phantomfpga_probe probe_enable probe_region probe_map probe_mask err_free err_disable
    err_release err_unmap mapped_card
probe-Outcome env bus = ground (
  arith,
  probe_alloc_lem env bus mapped_card.dev (pfpga_setup_msix bus mapped_card) (ground arith) refl
      (setup_msix_regs bus mapped_card) (setup_msix-Outcome mapped bus mapped_card (refl, refl)),
)
