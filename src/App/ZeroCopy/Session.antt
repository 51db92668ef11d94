-- ===== src/App/ZeroCopy/Session.antt =====
-- A session with --zero-copy and the driver behind it: configure_device, setup_mmap and
-- start_streaming, then any rounds, with what goes on in the driver between them.
use phantom_fpga_final_embed.Base.{
  ℕ, ◌+◌, ◌-◌, ◌≤◌, ◌≡◌, refl, sym, ap, ◌∙◌, Bool, true, false, ◌&&◌, List, [], ◌∷◌, Option, none,
  some, u64_mod, arith,
}
use phantom_fpga_final_embed.Regs.{BufferInfo, Config, frame_size}
use phantom_fpga_final_embed.Driver.State.{Dev, Env, Result, ok, buffer_at}
use phantom_fpga_final_embed.Driver.Frames.{load, consume_frame}
use phantom_fpga_final_embed.Driver.Control.{pfpga_start_streaming}
use phantom_fpga_final_embed.Driver.Ioctl.{
  Reply, nothing, buffer_info, ioctl_set_cfg, ioctl_get_buffer_info, phantomfpga_buffer_size,
}
use phantom_fpga_final_embed.Driver.Ioctl.SetCfg.{IsConfigured, set_cfg-Answer}
use phantom_fpga_final_embed.Driver.Ioctl.GetCfg.{configured_lem, get-set_cfg}
use phantom_fpga_final_embed.Driver.System.{Call, step}
use phantom_fpga_final_embed.Driver.Interrupted.{is_quiet, step-Still}
use phantom_fpga_final_embed.Driver.Inv.{Inv, Same, pool_of}
use phantom_fpga_final_embed.Driver.Inv.Control.{fresh-Inv, begin_lem, start-Inv}
use phantom_fpga_final_embed.Driver.Inv.Step.{step-Inv}
use phantom_fpga_final_embed.App.{App}
use phantom_fpga_final_embed.App.Frames.{process_frame}
use phantom_fpga_final_embed.App.Loop.{Turn, Looping, take_mapped}
use phantom_fpga_final_embed.App.Run.{World, configure_device, setup_mmap}
use phantom_fpga_final_embed.App.ZeroCopy.{Aligned, mapped_turn, mapped_as_read}

-- A round of the loop, or something else that the driver sees.
pub data Event : Type 0 where
  round : Env → Turn → Event
  other : Call → Event

-- Nobody else takes frames or stops the device: interrupts, polls, mappings and DMA writes only.
abbrev pub quiet : List Event → Bool
quiet [] = true
quiet (round env t ∷ es) = quiet es
quiet (other c ∷ es) = is_quiet c && quiet es

module _ (crc32_le : ℕ → List ℕ → ℕ) where
  unfoldable pub play : List Event → Looping → Dev → Looping × Dev
  play [] l d = (l, d)
  play (round env t ∷ es) l d =
      play es (take_mapped (mapped_turn env d t) l) (consume_frame env d).1
  play (other c ∷ es) l d = play es l (step crc32_le d c)

  -- The application after it has processed, in each round, the frame of the buffer that the driver
  -- consumes next.
  unfoldable pub fed : List Event → App → Dev → App
  fed [] a d = a
  fed (round env t ∷ es) a d =
      let frame = load env.mem (buffer_at d d.consumer).vaddr frame_size in
      fed es (process_frame t.first_send t.second_send frame a) (consume_frame env d).1
  fed (other c ∷ es) a d = fed es a (step crc32_le d c)

  other-Aligned :
      (l : Looping) (d : Dev) (c : Call)
      → is_quiet c ≡ true
      → Aligned l d
      → Aligned l (step crc32_le d c)
  other-Aligned l d c q h =
      let (consumer, count, configured, buffers, pool, pool_size, each, streaming) =
        step-Still crc32_le d c q in
      record {
        driver = step-Inv crc32_le d c h.driver;
        configured = configured ∙ h.configured;
        streaming = streaming ∙ h.streaming;
        no_wrap = omega (arith, h.no_wrap, ap pool_of pool, pool_size);
        index = h.index ∙ sym consumer;
        each = h.each ∙ sym each;
        count = h.count ∙ sym count;
      }

  play_lem :
      (es : List Event) (l : Looping) (d : Dev)
      → Aligned l d
      → quiet es ≡ true
      → let (m, e) = play es l d in (m.app ≡ fed es l.app d) × Aligned m e
  unfolding play fed
  play_lem [] l d h q = (refl, h)
  play_lem (round env t ∷ es) l d h q =
      let (same, next) = mapped_as_read env t l d h in
      let (rest, last) =
        play_lem es (take_mapped (mapped_turn env d t) l) (consume_frame env d).1 next q in
      (rest ∙ ap (λ a. fed es a (consume_frame env d).1) same, last)
  play_lem (other c ∷ es) l d h q =
      play_lem es l (step crc32_le d c) (other-Aligned l d c (ground arith) h) (ground arith)

-- What GET_BUFFER_INFO copies to the caller.
abbrev pub info_of : Result Reply → Option BufferInfo
info_of (ok (buffer_info i)) = some i
info_of _ = none

-- GET_BUFFER_INFO and mmap as setup_mmap calls them, when they succeed.
abbrev pub with_driver : Env → Dev → World → World
with_driver env e w = record w {
  buffer_info = info_of (ioctl_get_buffer_info env e).0;
  mmap = true;
}

configured-Inv : {cfg : Config} {d : Dev} → IsConfigured cfg d → Inv d
configured-Inv {cfg} {d} c =
    fresh-Inv d d c.allocated same c.at_start (c.head ∙ ap (λ n. n - 1) (sym c.count)) c.configured
  where
    same : Same d d
    same = record {
      count = refl;
      ring = refl;
      buffers = refl;
      pool = refl;
      pool_dma = refl;
      each = refl;
      total = refl;
    }

-- What START does to a device that SET_CFG has left.
record Started (d s : Dev) : Type 0 where
  accepted : (pfpga_start_streaming d).0 ≡ ok tt
  invariant : Inv s
  configured : s.configured ≡ true
  streaming : s.streaming ≡ true
  at_start : s.consumer ≡ 0
  pool : s.buffer_pool ≡ d.buffer_pool
  pool_size : s.buffer_pool_size ≡ d.buffer_pool_size
  each : s.buffer_size ≡ d.buffer_size
  count : s.desc_count ≡ d.desc_count

start-Started :
    {cfg : Config} (d : Dev) → IsConfigured cfg d → Started d (pfpga_start_streaming d).1
unfolding pfpga_start_streaming
start-Started {cfg} d c =
    let p = begin_lem d c.allocated in
    record {
      accepted = ground (arith, p, c.configured, c.idle);
      invariant = start-Inv (configured-Inv c);
      configured = ground (arith, p, c.configured, c.idle);
      streaming = ground (arith, p, c.configured, c.idle);
      at_start = ground (arith, p, c.configured, c.idle);
      pool = ground (arith, p, c.configured, c.idle);
      pool_size = ground (arith, p, c.configured, c.idle);
      each = ground (arith, p, c.configured, c.idle);
      count = ground (arith, p, c.configured, c.idle);
    }

-- The settings that setup_mmap leaves.
setup_lem :
    (w : World) (a : App) (i : BufferInfo)
    → w.buffer_info ≡ some i
    → i.buffer_size ≡ phantomfpga_buffer_size
    → let c = (setup_mmap w a).1.config in
      (c.buffer_size ≡ phantomfpga_buffer_size) × (c.desc_count ≡ a.config.desc_count)
unfolding setup_mmap
setup_lem w a i e h = ground arith

-- What the loop starts from.
abbrev pub entered : App → Looping
entered a = record { app = a; mmap_index = 0; broken = false }

started-Aligned :
    (a : App) (d : Dev)
    → IsConfigured (configure_device a.config) d
    → pool_of d.buffer_pool + d.buffer_pool_size ≤ u64_mod
    → (b : App) → b.config.buffer_size ≡ phantomfpga_buffer_size
    → b.config.desc_count ≡ a.config.desc_count
    → Aligned (entered b) (pfpga_start_streaming d).1
started-Aligned a d c fits b each count =
    let s = start-Started d c in
    record {
      driver = s.invariant;
      configured = s.configured;
      streaming = s.streaming;
      no_wrap = omega (arith, fits, ap pool_of s.pool, s.pool_size);
      index = sym s.at_start;
      each = each ∙ sym c.allocated.buffer_fits ∙ sym s.each;
      count = count ∙ sym c.count ∙ sym s.count;
    }

-- A session with --zero-copy from SET_CFG on: if SET_CFG with the settings of the application succeeds,
-- GET_BUFFER_INFO can be copied out, mmap succeeds and the pool does not reach past the end of the
-- address space, then START succeeds, and after any rounds of the loop, with interrupts, polls, mappings
-- and DMA writes of the device anywhere between them, the application is the one that has processed, in
-- each round, the frame of the buffer that the driver consumes next, whatever CONSUME_FRAME has
-- answered; and the index of the loop is the consumer of the driver.
pub zero_copy_session :
    (crc32_le : ℕ → List ℕ → ℕ) (env : Env) (w : World) (a : App) (d : Dev) (es : List Event)
    → env.user_config ≡ some (configure_device a.config)
    → env.user_writable ≡ true
    → (ioctl_set_cfg env d).0 ≡ ok nothing
    → pool_of (ioctl_set_cfg env d).1.buffer_pool + (ioctl_set_cfg env d).1.buffer_pool_size
      ≤ u64_mod
    → quiet es ≡ true
    → let e = (ioctl_set_cfg env d).1 in
      let s = (pfpga_start_streaming e).1 in
      let b = (setup_mmap (with_driver env e w) a).1 in
      let (l, f) = play crc32_le es (entered b) s in
      ((pfpga_start_streaming e).0 ≡ ok tt)
      × (l.app ≡ fed crc32_le es b s)
      × (l.mmap_index ≡ f.consumer)
zero_copy_session crc32_le env w a d es u r h fits q =
    let (each, count) =
      setup_lem (with_driver env e w) a _ (ap info_of (get-set_cfg env _ d u r h).1) refl in
    let (fed_so, aligned) =
      play_lem crc32_le es (entered b) s (started-Aligned a e c fits b each count) q in
    ((start-Started e c).accepted, fed_so, aligned.index)
  where
    e : Dev
    e = (ioctl_set_cfg env d).1

    s : Dev
    s = (pfpga_start_streaming e).1

    b : App
    b = (setup_mmap (with_driver env e w) a).1

    c : IsConfigured (configure_device a.config) e
    c = configured_lem env _ d (ioctl_set_cfg env d) (set_cfg-Answer env _ d u) h
