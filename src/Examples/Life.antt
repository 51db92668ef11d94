-- ===== src/Examples/Life.antt =====
-- The theorems on a card, from probe to remove.
use phantom_fpga_final_embed.Base.{◌≡◌, refl, true, none, some, List, [], ◌∷◌}
use phantom_fpga_final_embed.Driver.State.{Result, ok, err, code}
use phantom_fpga_final_embed.Driver.Ioctl.{ioctl_code, set_cfg, start, stop}
use phantom_fpga_final_embed.Driver.Control.{pfpga_soft_reset}
use phantom_fpga_final_embed.Driver.Alloc.{pfpga_alloc_descriptors, pfpga_free_descriptors}
use phantom_fpga_final_embed.Driver.System.{Call, ioctl, read, run}
use phantom_fpga_final_embed.Driver.Card.{
  new_card, phantomfpga_probe, phantomfpga_remove, pfpga_create_cdev,
}
use phantom_fpga_final_embed.Driver.Card.Msix.{Card, Bus, pfpga_setup_msix}
use phantom_fpga_final_embed.Driver.Card.Msix.Lines.{VectorsOutcome}
use phantom_fpga_final_embed.Driver.Card.Msix.Vectors.{SetUp, setup_msix-SetUp}
use phantom_fpga_final_embed.Driver.Card.Ledger.{Settled, ProbeOutcome, probe-Outcome}
use phantom_fpga_final_embed.Driver.Card.Life.{life-Settled}
use phantom_fpga_final_embed.Examples.{sum_crc, granted}

-- A kernel that grants all that probe asks for.
abbrev kernel : Bus
kernel = record {
  private_block = true;
  enable_device = none;
  request_region = none;
  iomap = true;
  mask_64 = none;
  mask_32 = none;
  alloc_irq_vectors = λ n. none;
  irq_vector = λ i. ok i;
  request_irq = λ i. none;
  ida_alloc = ok 0;
  cdev_add = none;
  device_create = none;
}

-- One that refuses the last step.
abbrev no_node : Bus
no_node = record kernel { device_create = some (code 12) }

abbrev card_of : Result Card → Card
card_of (ok c) = c
card_of (err e) = new_card

abbrev probed : Card
probed = card_of (phantomfpga_probe granted kernel).0

probe_succeeds : (phantomfpga_probe granted kernel).0 ≡ ok probed
unfolding phantomfpga_probe pfpga_setup_msix pfpga_alloc_descriptors pfpga_free_descriptors
    pfpga_soft_reset pfpga_create_cdev
probe_succeeds = refl

abbrev some_calls : List Call
some_calls =
    ioctl granted (ioctl_code set_cfg)
    ∷ ioctl granted (ioctl_code start)
    ∷ read granted 5120
    ∷ ioctl granted (ioctl_code stop)
    ∷ []

life-Settled_example :
    Settled (phantomfpga_remove granted (record probed { dev = run sum_crc probed.dev some_calls }))
life-Settled_example = life-Settled sum_crc granted kernel probed some_calls granted probe_succeeds

probe-Outcome_example : ProbeOutcome (phantomfpga_probe granted no_node)
probe-Outcome_example = probe-Outcome granted no_node

setup_msix-SetUp_example :
    VectorsOutcome [] new_card.dev (pfpga_setup_msix kernel new_card)
    × SetUp kernel (pfpga_setup_msix kernel new_card)
setup_msix-SetUp_example = setup_msix-SetUp [] kernel new_card (refl, refl)
