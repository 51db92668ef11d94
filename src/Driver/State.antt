-- ===== src/Driver/State.antt =====
-- The state that driver/phantomfpga_drv.c keeps for a device, what a call finds outside the driver,
-- and the effects that a call has there. Locks have no field: a function of the model is a region
-- that the code runs under its lock, or that nothing else runs beside.
use phantom_fpga_final_embed.Base.{
  ℕ, ◌≡◌, refl, ◌⊎◌, inl, inr, ◌+◌, ◌*◌, ◌^◌, Bool, Option, none, some, List, [], ◌∷◌, get_or, set,
}
use phantom_fpga_final_embed.Regs.{SgDesc, Config, FaultCfg}

-- struct phantomfpga_buffer
pub record Buffer : Type 0 where
  pub vaddr : ℕ
  pub dma_addr : ℕ
  pub size : ℕ

-- What the driver obtains from the kernel and gives back: coherent DMA memory (size, kernel address,
-- bus address), the array of `struct phantomfpga_buffer`, and what probe sets up.
pub data Resource : Type 0 where
  coherent : ℕ → ℕ → ℕ → Resource
  buffer_array private_data pci_device bar0_region bar0_map irq_vectors : Resource
  irq_line minor_number char_dev dev_node : ℕ → Resource

-- What a call does outside `*pfdev`: register writes, memory barriers, delays, wake-ups of the
-- wait queue, mappings of the pool (size, kernel address, bus address), and resources obtained and
-- given back.
pub data Io : Type 0 where
  iowrite32 : ℕ → ℕ → Io
  wmb wake_up : Io
  udelay : ℕ → Io
  dma_mmap : ℕ → ℕ → ℕ → Io
  acquire release : Resource → Io

-- struct phantomfpga_dev, less the handles of the PCI, interrupt and character devices and the
-- locks. A NULL pointer is `none`; `io` holds the effects so far, the latest first.
pub record Dev : Type 0 where
  pub desc_ring : Option (List SgDesc)
  pub desc_ring_dma : ℕ
  pub desc_ring_vaddr : ℕ
  pub desc_count : ℕ
  pub buffers : Option (List Buffer)
  pub buffer_size : ℕ
  pub buffer_pool : Option ℕ
  pub buffer_pool_dma : ℕ
  pub buffer_pool_size : ℕ
  pub frame_rate : ℕ
  pub irq_coalesce_count : ℕ
  pub irq_coalesce_timeout : ℕ
  pub configured : Bool
  pub streaming : Bool
  pub desc_head : ℕ
  pub desc_tail : ℕ
  pub shadow_tail : ℕ
  pub consumer : ℕ
  pub frames_consumed : ℕ
  pub bytes_consumed : ℕ
  pub irq_count : ℕ
  pub crc_errors : ℕ
  pub io : List Io

-- A coherent DMA allocation: the kernel address and the bus address.
pub record Block : Type 0 where
  pub vaddr : ℕ
  pub dma : ℕ

-- What one call finds outside the driver. A register or a byte of DMA memory has the value that
-- this call reads there, so the device may change them at any time; the allocators and the copies
-- from and to userspace answer as they please.
pub record Env : Type 0 where
  pub regs : ℕ → ℕ
  pub mem : ℕ → ℕ
  pub ring_block : Option Block
  pub pool_block : Option Block
  pub array_block : Bool
  pub user_config : Option Config
  pub user_fault : Option FaultCfg
  pub user_writable : Bool

-- The negative values that the driver returns; `code` is one that a kernel function returned.
pub data Errno : Type 0 where
  eperm eagain enomem efault ebusy enodev einval enotty : Errno
  code : ℕ → Errno

pub data Result {ℓ} (A : Type ℓ) : Type ℓ where
  ok : A → Result A
  err : Errno → Result A

-- The return value as an error, if it is one.
abbrev pub failure {ℓ} : {A : Type ℓ} → Result A → Option Errno
failure (ok _) = none
failure (err e) = some e

pub Result-cases {ℓ} :
    {A : Type ℓ} (r : Result A) → ((e : Errno) × (r ≡ err e)) ⊎ ((a : A) × (r ≡ ok a))
Result-cases (ok a) = inr (a, refl)
Result-cases (err e) = inl (e, refl)

-- pfpga_read32
abbrev pub pfpga_read32 : Env → ℕ → ℕ
pfpga_read32 env offset = env.regs offset

-- An effect that is not a change of `*pfdev`.
abbrev pub emit : Io → Dev → Dev
emit e d = record d { io = e ∷ d.io }

-- pfpga_write32
abbrev pub pfpga_write32 : ℕ → ℕ → Dev → Dev
pfpga_write32 offset val d = emit (iowrite32 offset val) d

-- A little-endian `__le32` in DMA memory.
abbrev pub le32 : (ℕ → ℕ) → ℕ → ℕ
le32 mem p = mem p + 2 ^ 8 * mem (p + 1) + 2 ^ 16 * mem (p + 2) + 2 ^ 24 * mem (p + 3)

-- The array behind a pointer; NULL has no elements.
abbrev pub elems {ℓ} : {A : Type ℓ} → Option (List A) → List A
elems none = []
elems (some xs) = xs

abbrev pub null_buffer : Buffer
null_buffer = record { vaddr = 0; dma_addr = 0; size = 0 }

abbrev pub null_desc : SgDesc
null_desc = record { control = 0; length = 0; dst_addr = 0; next_desc = 0; reserved = 0 }

-- `pfdev->desc_ring[i].control` and `pfdev->buffers[i]`, inside the arrays.
abbrev pub desc_control : Dev → ℕ → ℕ
desc_control d i = (get_or (elems d.desc_ring) i null_desc).control

abbrev pub buffer_at : Dev → ℕ → Buffer
buffer_at d i = get_or (elems d.buffers) i null_buffer

-- `pfdev->desc_ring[i].control = v`
abbrev pub with_control : Option (List SgDesc) → ℕ → ℕ → Option (List SgDesc)
with_control none i v = none
with_control (some ring) i v = some (set ring i (record (get_or ring i null_desc) { control = v }))

abbrev pub set_control : Dev → ℕ → ℕ → Dev
set_control d i v = record d { desc_ring = with_control d.desc_ring i v }
