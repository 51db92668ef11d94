-- ===== src/Driver/Card/Life.antt =====
-- A device from probe through any calls to remove.
use phantom_fpga_final_embed.Base.{ℕ, ◌≡◌, ◌<◌, refl, true, List, ◌∷◌, ◌++◌, if◌then◌else◌, arith}
use phantom_fpga_final_embed.Driver.State.{Dev, Env, Io, Result, ok, err, Resource, irq_vectors}
use phantom_fpga_final_embed.Driver.Control.{pfpga_stop_streaming}
use phantom_fpga_final_embed.Driver.Alloc.{pfpga_free_descriptors}
use phantom_fpga_final_embed.Driver.Alloc.Resources.{free-IsEmpty}
use phantom_fpga_final_embed.Driver.Alloc.Balance.{IsPooled, free-Balanced}
use phantom_fpga_final_embed.Driver.Inv.{Inv, IsEmpty}
use phantom_fpga_final_embed.Driver.Inv.Step.{run-Inv}
use phantom_fpga_final_embed.Driver.Balance.{Inv-IsPooled, run-Balanced}
use phantom_fpga_final_embed.Driver.Ledger.{Balanced}
use phantom_fpga_final_embed.Driver.System.{Call, run}
use phantom_fpga_final_embed.Driver.Card.{pfpga_destroy_cdev, phantomfpga_probe, phantomfpga_remove}
use phantom_fpga_final_embed.Driver.Card.Msix.{Card, Bus, on_dev, pfpga_teardown_msix}
use phantom_fpga_final_embed.Driver.Card.Msix.Lines.{lines, teardown_lem}
use phantom_fpga_final_embed.Driver.Card.Ledger.{
  Settled, mapped, fixtures, ProbeOutcome, probe-Outcome,
}

-- Stopping changes no holding.
stopped : Env → Dev → Dev
stopped env d = if d.streaming then (pfpga_stop_streaming env d).1 else d

stopped-Balanced :
    (rs : List Resource) (env : Env) (d : Dev)
    → IsPooled d
    → Balanced rs d
    → IsPooled (stopped env d) × Balanced rs (stopped env d)
unfolding stopped pfpga_stop_streaming
stopped-Balanced rs env d p b = ground arith

-- Once the character device is gone.
destroy_lem :
    (c : Card)
    → Balanced (fixtures c) c.dev
    → Balanced (lines c ++ irq_vectors ∷ mapped) (pfpga_destroy_cdev c).dev
unfolding pfpga_destroy_cdev
destroy_lem c b = ground arith

-- The card as the memory goes.
freed : Env → Card → Card
freed env c = on_dev pfpga_free_descriptors (pfpga_destroy_cdev (on_dev (stopped env) c))

freed_lem :
    (env : Env) (c : Card)
    → IsPooled c.dev
    → Balanced (fixtures c) c.dev
    → Balanced (lines c ++ irq_vectors ∷ mapped) (freed env c).dev × IsEmpty (freed env c).dev
unfolding freed
freed_lem env c p b =
    let (q, s) = stopped-Balanced (fixtures c) env c.dev p b in
    let gone = destroy_lem (on_dev (stopped env) c) s in
    (
      free-Balanced (lines c ++ irq_vectors ∷ mapped) _ (unfold pfpga_destroy_cdev in q) gone,
      free-IsEmpty _,
    )

teardown_regs : (c : Card) → (pfpga_teardown_msix c).regs_mapped ≡ c.regs_mapped
unfolding pfpga_teardown_msix
teardown_regs c = ground arith

destroy_fields :
    (c : Card)
    → ((pfpga_destroy_cdev c).num_vectors ≡ c.num_vectors)
      × ((pfpga_destroy_cdev c).regs_mapped ≡ c.regs_mapped)
unfolding pfpga_destroy_cdev
destroy_fields c = (refl, refl)

remove-Settled :
    (env : Env) (c : Card)
    → IsPooled c.dev
    → Balanced (fixtures c) c.dev
    → 0 < c.num_vectors
    → c.regs_mapped ≡ true
    → Settled (phantomfpga_remove env c)
unfolding phantomfpga_remove stopped freed pfpga_destroy_cdev
remove-Settled env c p b v m =
    let (freed_b, freed_e) = freed_lem env c p b in
    let fields = destroy_fields (on_dev (stopped env) c) in
    let (kept, only) = teardown_lem mapped (freed env c) (omega (arith, fields.0)) freed_b in
    ground (arith, m, fields.1, teardown_regs (freed env c), kept, only, freed_e)

module _ (crc32_le : ℕ → List ℕ → ℕ) where
  -- From a probe that succeeds to remove nothing leaks: after any sequence of calls on the new device,
  -- remove leaves in hand no memory, interrupt line or vector, mapping, minor number or device, and no
  -- resource has been given back twice.
  pub life-Settled :
      (env : Env) (bus : Bus) (c : Card) (cs : List Call) (last : Env)
      → (phantomfpga_probe env bus).0 ≡ ok c
      → Settled (phantomfpga_remove last (record c { dev = run crc32_le c.dev cs }))
  life-Settled env bus c cs last e =
      let (b, v, n, m) = probed (phantomfpga_probe env bus) e (probe-Outcome env bus) in
      remove-Settled last _ (Inv-IsPooled (run-Inv crc32_le c.dev cs v))
        (run-Balanced (fixtures c) crc32_le c.dev cs v b) n m
    where
      probed :
          (r : Result Card × List Io)
          → r.0 ≡ ok c
          → ProbeOutcome r
          → Balanced (fixtures c) c.dev × Inv c.dev × (0 < c.num_vectors) × (c.regs_mapped ≡ true)
      probed (ok d, io) q o = ground (arith, q, o)
      probed (err x, io) q o = cc
