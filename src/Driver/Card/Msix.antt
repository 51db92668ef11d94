-- ===== src/Driver/Card/Msix.antt =====
-- The state that a card keeps besides `Dev`, what the kernel answers while it is set up, and the
-- interrupt vectors: pfpga_setup_msix and pfpga_teardown_msix.
pub mod Lines
pub mod Vectors
use phantom_fpga_final_embed.Base.{ℕ, Bool, true, false, Option, none, some, ltb, if◌then◌else◌}
use phantom_fpga_final_embed.Regs.{
  msix_vectors, msix_vec_complete, msix_vec_error, msix_vec_no_desc,
}
use phantom_fpga_final_embed.Driver.State.{
  Dev, Io, Errno, Result, ok, err, acquire, release, irq_vectors, irq_line, emit,
}

-- struct phantomfpga_dev, the fields that `Dev` leaves out. A negative interrupt number is `none`.
pub record Card : Type 0 where
  pub dev : Dev
  pub num_vectors : ℕ
  pub irq_complete : Option ℕ
  pub irq_error : Option ℕ
  pub irq_no_desc : Option ℕ
  pub minor : ℕ
  pub regs_mapped : Bool

-- What the kernel answers during probe: each function that returns an error code or 0, each
-- allocation that may fail, the IRQ number of a vector, and a minor number. pci_alloc_irq_vectors
-- is called with equal bounds, so it gives that many vectors if it does not fail.
pub record Bus : Type 0 where
  pub private_block : Bool
  pub enable_device : Option Errno
  pub request_region : Option Errno
  pub iomap : Bool
  pub mask_64 : Option Errno
  pub mask_32 : Option Errno
  pub alloc_irq_vectors : ℕ → Option Errno
  pub irq_vector : ℕ → Result ℕ
  pub request_irq : ℕ → Option Errno
  pub ida_alloc : Result ℕ
  pub cdev_add : Option Errno
  pub device_create : Option Errno

abbrev pub on_dev : (Dev → Dev) → Card → Card
on_dev f c = record c { dev = f c.dev }

abbrev pub put : Io → Card → Card
put e c = on_dev (emit e) c

-- `if (irq >= 0) free_irq(irq, pfdev)`
abbrev pub drop_irq : Option ℕ → Card → Card
drop_irq none c = c
drop_irq (some n) c = put (release (irq_line n)) c

-- The labels of pfpga_setup_msix, the last one first.
abbrev pub err_free_vectors : Errno → Card → Result (Unit {0}) × Card
err_free_vectors e c = (
  err e,
  record (put (release irq_vectors) c) {
    num_vectors = 0;
    irq_complete = none;
    irq_error = none;
    irq_no_desc = none;
  },
)

abbrev pub err_free_complete : Errno → Card → Result (Unit {0}) × Card
err_free_complete e c =
    err_free_vectors e (record (drop_irq c.irq_complete c) { irq_complete = none })

abbrev pub err_free_error : Errno → Card → Result (Unit {0}) × Card
err_free_error e c = err_free_complete e (record (drop_irq c.irq_error c) { irq_error = none })

-- request_irq: an error, or one more interrupt line.
abbrev pub requested :
    Option Errno
    → ℕ
    → Card
    → (Errno → Card → Result (Unit {0}) × Card)
    → (Card → Result (Unit {0}) × Card)
    → Result (Unit {0}) × Card
requested (some e) n c failed go_on = failed e c
requested none n c failed go_on = go_on (put (acquire (irq_line n)) c)

setup_no_desc : Bus → Card → Result (Unit {0}) × Card
setup_no_desc bus c =
    if ltb msix_vec_no_desc c.num_vectors
    then elim (bus.irq_vector msix_vec_no_desc) [
      | err e ↦ err_free_error e (record c { irq_no_desc = none })
      | ok n ↦
          requested (bus.request_irq msix_vec_no_desc) n (record c { irq_no_desc = some n })
            err_free_error (λ c. (ok tt, c))
    ]
    else (ok tt, c)

setup_error : Bus → Card → Result (Unit {0}) × Card
unfolding setup_no_desc
setup_error bus c =
    if ltb msix_vec_error c.num_vectors
    then elim (bus.irq_vector msix_vec_error) [
      | err e ↦ err_free_complete e (record c { irq_error = none })
      | ok n ↦
          requested (bus.request_irq msix_vec_error) n (record c { irq_error = some n })
            err_free_complete (setup_no_desc bus)
    ]
    else setup_no_desc bus c

setup_complete : Bus → Card → Result (Unit {0}) × Card
unfolding setup_error
setup_complete bus c = elim (bus.irq_vector msix_vec_complete) [
  | err e ↦ err_free_vectors e (record c { irq_complete = none })
  | ok n ↦
      requested (bus.request_irq msix_vec_complete) n (record c { irq_complete = some n })
        err_free_vectors (setup_error bus)
]

-- All vectors of the device, or else one.
setup_vectors : Bus → Option Errno → Option Errno → Card → Result (Unit {0}) × Card
unfolding setup_complete
setup_vectors bus (some e) (some e1) c = (err e1, c)
setup_vectors bus (some e) none c =
    setup_complete bus (record (put (acquire irq_vectors) c) { num_vectors = 1 })
setup_vectors bus none _ c =
    setup_complete bus (record (put (acquire irq_vectors) c) { num_vectors = msix_vectors })

unfoldable pub pfpga_setup_msix : Bus → Card → Result (Unit {0}) × Card
unfolding setup_vectors
pfpga_setup_msix bus c =
    let c = record c {
      num_vectors = 0;
      irq_complete = none;
      irq_error = none;
      irq_no_desc = none;
    } in
    setup_vectors bus (bus.alloc_irq_vectors msix_vectors) (bus.alloc_irq_vectors 1) c

unfoldable pub pfpga_teardown_msix : Card → Card
pfpga_teardown_msix c =
    let c = record (drop_irq c.irq_no_desc c) { irq_no_desc = none } in
    let c = record (drop_irq c.irq_error c) { irq_error = none } in
    let c = record (drop_irq c.irq_complete c) { irq_complete = none } in
    if ltb 0 c.num_vectors then record (put (release irq_vectors) c) { num_vectors = 0 } else c
