-- ===== src/App/Loop.antt =====
-- main_loop of app/phantomfpga_app_impl.cpp. One iteration is a `Turn`: what its calls will answer.
use phantom_fpga_final_embed.Base.{
  ℕ, ◌*◌, ◌%◌, Bool, true, false, not, ◌&&◌, ◌||◌, List, [], ◌∷◌, Option, if◌then◌else◌, ◌==◌, ltb,
  length, add32,
}
use phantom_fpga_final_embed.Regs.{frame_size}
use phantom_fpga_final_embed.Driver.Frames.{load}
use phantom_fpga_final_embed.App.{App, on_server}
use phantom_fpga_final_embed.App.Server.{Send, try_accept}
use phantom_fpga_final_embed.App.Frames.{process_frame}

-- poll: -1 with EINTR or not, 0, or a count with POLLERR, POLLHUP or POLLNVAL and with POLLIN or not.
pub data Poll : Type 0 where
  poll_failed : Bool → Poll
  timed_out : Poll
  ready : Bool → Bool → Poll

-- read and the ioctl: -1, with EINTR or EAGAIN or not, or what they give.
pub data Answer (A : Type 0) : Type 0 where
  failed : Bool → Answer A
  gives : A → Answer A

-- `pool` is the mapped memory by offset; the flag says that the signal handler clears `running` before
-- the next iteration.
pub record Turn : Type 0 where
  pub accepted : Option ℕ
  pub poll : Poll
  pub pool : ℕ → ℕ
  pub consume : Answer (Unit {0})
  pub read : Answer (List ℕ)
  pub first_send : Send
  pub second_send : Send
  pub signal : Bool

-- The state of the loop: its local variable mmap_index, and whether it has been left by a `break`.
pub record Looping : Type 0 where
  pub app : App
  pub mmap_index : ℕ
  pub broken : Bool

abbrev pub leave_loop : Looping → Looping
leave_loop l = record l { broken = true }

-- After a failed call: EINTR and EAGAIN are tried again.
abbrev pub retry_or_leave : Bool → Looping → Looping
retry_or_leave again l = if again then l else leave_loop l

abbrev pub processed : Turn → List ℕ → Looping → Looping
processed t frame l = record l { app = process_frame t.first_send t.second_send frame l.app }

-- After CONSUME_FRAME; `next` is the index to go on with.
abbrev pub after_consume : Answer (Unit {0}) → ℕ → Looping → Looping
after_consume (failed again) next l = retry_or_leave again l
after_consume (gives _) next l = record l { mmap_index = next }

-- The branch of --zero-copy. Its test of buffer_pool_.get() for a null pointer always fails: an empty
-- wrapper holds MAP_FAILED, and a mapping has an address.
unfoldable pub take_mapped : Turn → Looping → Looping
take_mapped t l =
    let config = l.app.config in
    let frame = load t.pool (l.mmap_index * config.buffer_size) frame_size in
    let next = add32 l.mmap_index 1 % config.desc_count in
    if ltb config.buffer_size frame_size
    then leave_loop l
    else after_consume t.consume next (processed t frame l)

-- The branch with read. A count of 0 is passed over.
unfoldable pub after_read : Answer (List ℕ) → Turn → Looping → Looping
after_read (failed again) t l = retry_or_leave again l
after_read (gives bytes) t l = if length bytes == 0 then l else processed t bytes l

abbrev pub take_frame : Turn → Looping → Looping
take_frame t l = if l.app.config.zero_copy then take_mapped t l else after_read t.read t l

-- The tests of `revents`.
unfoldable pub after_poll : Poll → Turn → Looping → Looping
after_poll (poll_failed again) t l = retry_or_leave again l
after_poll timed_out t l = l
after_poll (ready bad readable) t l =
    if bad then leave_loop l else if not readable then l else take_frame t l

unfoldable pub iterate : Turn → Looping → Looping
iterate t l =
    let l = after_poll t.poll t (record l { app = on_server (try_accept t.accepted) l.app }) in
    record l { app = record (l.app) { running = l.app.running && not t.signal } }

unfoldable pub loop : List Turn → Looping → Looping
loop [] l = l
loop (t ∷ ts) l =
    let rest = loop ts (iterate t l) in if not l.app.running || l.broken then l else rest

-- So many iterations, up to the signal that ends it.
unfoldable pub main_loop : List Turn → App → App
main_loop ts a = (loop ts (record { app = a; mmap_index = 0; broken = false })).app
