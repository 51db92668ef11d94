-- ===== src/Driver/Registration.antt =====
-- Loading and unloading the module: phantomfpga_init and phantomfpga_exit. Each registration with the
-- kernel, and each end of one, is an event, the latest first.
use phantom_fpga_final_embed.Base.{
  ◌≡◌, refl, ◌⊎◌, inl, inr, Bool, true, false, Option, none, some, List, [], ◌∷◌, if◌then◌else◌,
}
use phantom_fpga_final_embed.Driver.State.{Errno, Result, ok, err}

pub data Registered : Type 0 where
  chrdev_region device_class pci_driver : Registered

pub data Event : Type 0 where
  register unregister : Registered → Event

-- The labels of phantomfpga_init, the last one first.
err_chrdev : Errno → List Event → Result (Unit {0}) × List Event
err_chrdev e es = (err e, unregister chrdev_region ∷ es)

err_class : Errno → List Event → Result (Unit {0}) × List Event
unfolding err_chrdev
err_class e es = err_chrdev e (unregister device_class ∷ es)

-- With the answers of alloc_chrdev_region, class_create and pci_register_driver.
unfoldable pub phantomfpga_init :
    Option Errno → Option Errno → Option Errno → Result (Unit {0}) × List Event
unfolding err_chrdev err_class
phantomfpga_init (some e) class driver = (err e, [])
phantomfpga_init none (some e) driver = err_chrdev e (register chrdev_region ∷ [])
phantomfpga_init none none (some e) =
    err_class e (register device_class ∷ register chrdev_region ∷ [])
phantomfpga_init none none none =
    (ok tt, register pci_driver ∷ register device_class ∷ register chrdev_region ∷ [])

unfoldable pub phantomfpga_exit : List Event → List Event
phantomfpga_exit es =
    unregister chrdev_region ∷ unregister device_class ∷ unregister pci_driver ∷ es

abbrev same : Registered → Registered → Bool
same chrdev_region chrdev_region = true
same device_class device_class = true
same pci_driver pci_driver = true
same _ _ = false

abbrev happen : Event → Option (List Registered) → Option (List Registered)
happen e none = none
happen (register r) (some rs) = some (r ∷ rs)
happen (unregister r) (some []) = none
happen (unregister r) (some (x ∷ rs)) = if same r x then some rs else none

-- What is registered after the events, the latest first; `none` if something else than the latest
-- registration was undone.
abbrev pub in_force : List Event → Option (List Registered)
in_force [] = some []
in_force (e ∷ es) = happen e (in_force es)

-- Loading the module succeeds if and only if all three registrations do, and reports the first one
-- that fails. A load that fails has undone, in the reverse order, all that it registered; after one
-- that succeeds, unloading does so.
pub load_unload :
    (region class driver : Option Errno)
    → let (r, es) = phantomfpga_init region class driver in
      ((r ≡ ok tt)
        × (region ≡ none)
        × (class ≡ none)
        × (driver ≡ none)
        × (in_force (phantomfpga_exit es) ≡ some []))
      ⊎ ((e : Errno) × (r ≡ err e)
          × ((region ≡ some e)
              ⊎ ((region ≡ none) × ((class ≡ some e) ⊎ ((class ≡ none) × (driver ≡ some e)))))
          × (in_force es ≡ some []))
unfolding phantomfpga_init phantomfpga_exit
load_unload (some e) class driver = inr (e, refl, inl refl, refl)
load_unload none (some e) driver = inr (e, refl, inr (refl, inl refl), refl)
load_unload none none (some e) = inr (e, refl, inr (refl, inr (refl, refl)), refl)
load_unload none none none = inl (refl, refl, refl, refl, refl)
