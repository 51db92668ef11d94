-- ===== src/Pipeline.antt =====
-- The whole way of a frame: the device and the driver behind main_loop with read, and run_viewer at
-- the other end of its connection.
pub mod Reads
pub mod Terminal
use phantom_fpga_final_embed.Base.{
  ℕ, ◌+◌, ◌-◌, ◌%◌, ◌≤◌, ◌<◌, ◌≡◌, ◌≢◌, refl, sym, ap, subst, ◌∙◌, inl, inr, Bool, true, false, not,
  Option, none, some, List, [], ◌∷◌, ◌==◌, if◌then◌else◌, ltb, length, bit_and, arith,
}
use phantom_fpga_final_embed.Regs.{frame_size, reg_desc_tail, desc_ctrl_completed}
use phantom_fpga_final_embed.Driver.State.{
  Dev, Env, Result, ok, err, eagain, buffer_at, set_control,
}
use phantom_fpga_final_embed.Driver.Control.{begin_streaming}
use phantom_fpga_final_embed.Driver.Frames.{load, frame_length, snapshot, pfpga_read, consume_frame}
use phantom_fpga_final_embed.Driver.Frames.Take.{read_bounds, consume_as_read}
use phantom_fpga_final_embed.Driver.Frames.Consume.{consume_frame-Consumes}
use phantom_fpga_final_embed.Driver.System.{Call, step}
use phantom_fpga_final_embed.Driver.Inv.{Inv}
use phantom_fpga_final_embed.Driver.Inv.Step.{step-Inv, complete-Inv}
use phantom_fpga_final_embed.Driver.Fifo.{Represents, apart, produce-Represents}
use phantom_fpga_final_embed.Driver.Fifo.Reach.{
  started, IsFair, IsQueue, watches, watched_lem, Alike-Represents, read-IsQueue, Reach-IsQueue,
}
use phantom_fpga_final_embed.App.{App}
use phantom_fpga_final_embed.App.Loop.{Turn, Answer, failed, gives, timed_out, ready, main_loop}
use phantom_fpga_final_embed.App.Forward.{forwarded}
use phantom_fpga_final_embed.App.Stream.{SendsAll, OnAir}
use phantom_fpga_final_embed.App.Reach.{Peaceful, ArePeaceful, frames_of}
use phantom_fpga_final_embed.App.ZeroCopy.{is_again}
use phantom_fpga_final_embed.Viewer.{Viewer}
use phantom_fpga_final_embed.Viewer.Client.Exact.{incoming}
use phantom_fpga_final_embed.Viewer.Loop.{run_viewer, prepare, finish}
use phantom_fpga_final_embed.Viewer.Receive.{Ready}
use phantom_fpga_final_embed.EndToEnd.{Drawn, sent, frames_reach_viewer}

-- The device completes the next descriptor with a control word; the loop goes round, and poll has
-- found the device readable or has timed out; or the driver sees something that takes no frame.
pub data Event : Type 0 where
  completes : ℕ → Event
  reads : Env → Turn → Event
  waits : Turn → Event
  other : Call → Event

abbrev pub answer_of : Result (ℕ × List ℕ) → Answer (List ℕ)
answer_of (ok (n, bytes)) = gives bytes
answer_of (err e) = failed (is_again e)

-- An iteration that reads.
abbrev pub turn_with : Result (ℕ × List ℕ) → Turn → Turn
turn_with r t = record t { poll = ready false true; read = answer_of r }

-- The number of frames taken, after a read where the device has completed p and c have been taken.
abbrev pub taken_after : ℕ → ℕ → ℕ
taken_after p c = if ltb c p then c + 1 else c

-- The sends of an iteration take all, and no signal comes.
abbrev pub Calm : Turn → Type 0
Calm t =
    ((n : ℕ) × (t.first_send.sent ≡ some n) × (4 ≤ n))
    × ((m : ℕ) × (t.second_send.sent ≡ some m) × (frame_size ≤ m))
    × (t.signal ≡ false)

-- The device stays behind the head, sets the COMPLETED bit and shows in its tail register how far it
-- has come; userspace can be written.
unfoldable pub Fair : (size : ℕ) → List Event → (p c : ℕ) → Type 0
Fair size [] p c = Unit
Fair size (completes control ∷ es) p c =
    (p < c + (size - 1))
    × (not (bit_and control desc_ctrl_completed == 0) ≡ true)
    × Fair size es (p + 1) c
Fair size (reads env t ∷ es) p c =
    ((env.regs reg_desc_tail ≡ p % size) × (env.user_writable ≡ true) × Calm t)
    × Fair size es p (taken_after p c)
Fair size (waits t ∷ es) p c = Calm t × Fair size es p c
Fair size (other call ∷ es) p c = (watches call ≡ true) × Fair size es p c

-- The frame in a buffer, as long as the completion behind it says.
abbrev pub frame_in : Env → Dev → ℕ → List ℕ
frame_in env d i = load env.mem (buffer_at d i).vaddr (frame_length env d i)

-- The frames that are read, by number: number c is in the buffer at c round the ring.
unfoldable pub by_number : Dev → List Event → ℕ → ℕ → List (List ℕ)
by_number s [] p c = []
by_number s (completes control ∷ es) p c = by_number s es (p + 1) c
by_number s (reads env t ∷ es) p c =
    let rest = by_number s es p (taken_after p c) in
    if ltb c p then frame_in env s (c % s.desc_count) ∷ rest else rest
by_number s (waits t ∷ es) p c = by_number s es p c
by_number s (other call ∷ es) p c = by_number s es p c

module _ (crc32_le : ℕ → List ℕ → ℕ) where
  -- The iterations of main_loop, where read is the driver's.
  unfoldable pub turns_of : List Event → ℕ → Dev → List Turn
  turns_of [] p d = []
  turns_of (completes control ∷ es) p d =
      turns_of es (p + 1) (set_control d (p % d.desc_count) control)
  turns_of (reads env t ∷ es) p d =
      let r = pfpga_read crc32_le env frame_size d in turn_with r.0 t ∷ turns_of es p r.1
  turns_of (waits t ∷ es) p d = record t { poll = timed_out; read = failed true } ∷ turns_of es p d
  turns_of (other call ∷ es) p d = turns_of es p (step crc32_le d call)
