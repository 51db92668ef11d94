-- ===== src/App/Reach.antt =====
-- main_loop over many iterations, with a client that takes all it is sent.
use phantom_fpga_final_embed.Base.{
  ℕ, ◌≡◌, refl, sym, ap, subst, ◌∙◌, Bool, true, false, not, ◌&&◌, ◌||◌, List, [], ◌∷◌, ◌++◌,
  Option, none, some, if◌then◌else◌, ◌==◌, is_none, length, ++-assoc, ++-nil,
}
use phantom_fpga_final_embed.App.{App, Effect, TcpServer, on_server}
use phantom_fpga_final_embed.App.Server.{try_accept}
use phantom_fpga_final_embed.App.Loop.{
  Turn, Answer, Poll, poll_failed, timed_out, ready, failed, gives, Looping, leave_loop,
  retry_or_leave, processed, take_mapped, after_read, take_frame, after_poll, iterate, loop,
  main_loop,
}
use phantom_fpga_final_embed.App.Forward.{next_seen, passes, forwarded, on_the_wire}
use phantom_fpga_final_embed.App.Stream.{
  SendsAll, Serves, OnAir, wire_of, on_server-OnAir, process_frame-OnAir,
}

-- Nothing that ends the loop, and sends that take all: a poll or a read that is interrupted or comes too
-- early, time-outs and reads of any length are allowed.
abbrev AllowsPoll : Poll → Type 0
AllowsPoll (poll_failed again) = again ≡ true
AllowsPoll timed_out = Unit
AllowsPoll (ready bad readable) = bad ≡ false

abbrev AllowsRead : Turn → Answer (List ℕ) → Type 0
AllowsRead t (failed again) = again ≡ true
AllowsRead t (gives bytes) = SendsAll t.first_send t.second_send bytes

pub record Peaceful (t : Turn) : Type 0 where
  pub poll : AllowsPoll t.poll
  pub read : AllowsRead t t.read
  pub signal : t.signal ≡ false

abbrev pub ArePeaceful : List Turn → Type 0
ArePeaceful [] = Unit
ArePeaceful (t ∷ ts) = Peaceful t × ArePeaceful ts

-- The frame that an iteration takes.
abbrev read_of : Answer (List ℕ) → Option (List ℕ)
read_of (failed _) = none
read_of (gives bytes) = if length bytes == 0 then none else some bytes

abbrev polled : Poll → Option (List ℕ) → Option (List ℕ)
polled (ready bad true) o = o
polled _ o = none

abbrev pub frame_of : Turn → Option (List ℕ)
frame_of t = polled t.poll (read_of t.read)

abbrev pub frames_of : List Turn → List (List ℕ)
frames_of [] = []
frames_of (t ∷ ts) = elim (frame_of t) [ none ↦ frames_of ts | some f ↦ f ∷ frames_of ts ]

-- What one iteration does to the last frame and the wire.
abbrev seen_after : Option ℕ → Option (List ℕ) → Option ℕ
seen_after seen none = seen
seen_after seen (some f) = next_seen seen f

abbrev wire_after : Bool → Option ℕ → List ℕ → Option (List ℕ) → List ℕ
wire_after crc seen wire none = wire
wire_after crc seen wire (some f) = wire ++ wire_of (passes crc seen f) f

abbrev GoesOn : Bool → Option ℕ → List ℕ → Looping → Type 0
GoesOn crc seen wire l = (l.broken ≡ false) × OnAir crc seen wire l.app

module _ (crc : Bool) (seen : Option ℕ) (wire : List ℕ) where
  abbrev Does : Option (List ℕ) → Looping → Type 0
  Does o l = GoesOn crc (seen_after seen o) (wire_after crc seen wire o) l

  retries :
      (again : Bool) (l : Looping)
      → again ≡ true
      → GoesOn crc seen wire l
      → GoesOn crc seen wire (retry_or_leave again l)
  retries true l e h = h
  retries false l e h = cc

  after_read-Does :
      (x : Answer (List ℕ)) (t : Turn) (l : Looping)
      → AllowsRead t x
      → GoesOn crc seen wire l
      → Does (read_of x) (after_read x t l)
  unfolding after_read
  after_read-Does (failed again) t l e h = retries again l e h
  after_read-Does (gives bytes) t l sends (b, h) = by_count (length bytes == 0)
    where
      by_count :
          (z : Bool) → Does (if z then none else some bytes) (if z then l else processed t bytes l)
      by_count true = (b, h)
      by_count false =
          (b, process_frame-OnAir t.first_send t.second_send bytes crc seen wire l.app sends h)

  readable-Does :
      (bad : Bool) (t : Turn) (l : Looping)
      → bad ≡ false
      → AllowsRead t t.read
      → GoesOn crc seen wire l
      → Does (read_of t.read) (if bad then leave_loop l else take_frame t l)
  readable-Does true t l e sends h = cc
  readable-Does false t l e sends h =
      subst (λ z. Does (read_of t.read) (if z then take_mapped t l else after_read t.read t l))
        (sym h.1.copies) (after_read-Does t.read t l sends h)

  unreadable-Does :
      (bad : Bool) (l : Looping)
      → bad ≡ false
      → GoesOn crc seen wire l
      → Does none (if bad then leave_loop l else l)
  unreadable-Does true l e h = cc
  unreadable-Does false l e h = h

  after_poll-Does :
      (x : Poll) (t : Turn) (l : Looping)
      → AllowsPoll x
      → AllowsRead t t.read
      → GoesOn crc seen wire l
      → Does (polled x (read_of t.read)) (after_poll x t l)
  unfolding after_poll
  after_poll-Does (poll_failed again) t l e sends h = retries again l e h
  after_poll-Does timed_out t l e sends h = h
  after_poll-Does (ready bad true) t l e sends h = readable-Does bad t l e sends h
  after_poll-Does (ready bad false) t l e sends h = unreadable-Does bad l e h

  -- A client that is there stays.
  try_accept-Serves :
      (accepted : Option ℕ) (s : TcpServer) (log : List Effect)
      → Serves wire s
      → Serves wire (try_accept accepted (s, log)).0
  unfolding try_accept
  try_accept-Serves accepted s log ((fd, c), w) =
      let busy : (is_none s.listen_fd || not (is_none s.client_fd)) ≡ true =
        ap (λ o. is_none s.listen_fd || not (is_none o)) c ∙ or_true (is_none s.listen_fd) in
      simp busy ((fd, c), w)
    where
      or_true : (b : Bool) → (b || true) ≡ true
      or_true true = refl
      or_true false = refl

  iterate-Does :
      (t : Turn) (l : Looping)
      → Peaceful t
      → GoesOn crc seen wire l
      → Does (frame_of t) (iterate t l)
  unfolding iterate
  iterate-Does t l p (b, h) =
      let start = record l { app = on_server (try_accept t.accepted) l.app } in
      let x = after_poll-Does t.poll t start p.poll p.read (
        b,
        on_server-OnAir (try_accept t.accepted) crc seen wire wire l.app
            (λ s log. try_accept-Serves t.accepted s log) h,
      ) in
      (
        x.0,
        record {
          copies = x.1.copies;
          checks = x.1.checks;
          running = ap (λ b. b && not t.signal) x.1.running ∙ ap not p.signal;
          last = x.1.last;
          server = x.1.server;
        },
      )

-- The wire after one frame and the others.
wire_of-forwarded :
    (crc : Bool) (seen : Option ℕ) (f : List ℕ) (fs : List (List ℕ))
    → wire_of (passes crc seen f) f ++ on_the_wire (forwarded crc (next_seen seen f) fs)
      ≡ on_the_wire (forwarded crc seen (f ∷ fs))
wire_of-forwarded crc seen f fs = go (passes crc seen f) (forwarded crc (next_seen seen f) fs)
  where
    go :
        (z : Bool) (r : List (List ℕ))
        → wire_of z f ++ on_the_wire r ≡ on_the_wire (if z then f ∷ r else r)
    go true r = refl
    go false r = refl

abbrev Reaches : Bool → Option ℕ → List ℕ → List (List ℕ) → App → Type 0
Reaches crc seen wire fs a =
    (last : Option ℕ) × OnAir crc last (wire ++ on_the_wire (forwarded crc seen fs)) a

later :
    (o : Option (List ℕ)) (ts : List Turn) (crc : Bool) (seen : Option ℕ) (wire : List ℕ) (a : App)
    → Reaches crc (seen_after seen o) (wire_after crc seen wire o) (frames_of ts) a
    → Reaches crc seen wire (elim o [ none ↦ frames_of ts | some f ↦ f ∷ frames_of ts ]) a
later none ts crc seen wire a h = h
later (some f) ts crc seen wire a (last, h) = (
  last,
  subst (λ w. OnAir crc last w a)
      (++-assoc wire (wire_of (passes crc seen f) f)
          (on_the_wire (forwarded crc (next_seen seen f) (frames_of ts)))
        ∙ ap (λ w. wire ++ w) (wire_of-forwarded crc seen f (frames_of ts)))
      h,
)

loop-Reaches :
    (ts : List Turn) (crc : Bool) (seen : Option ℕ) (wire : List ℕ) (l : Looping)
    → ArePeaceful ts
    → GoesOn crc seen wire l
    → Reaches crc seen wire (frames_of ts) (loop ts l).app
unfolding loop
loop-Reaches [] crc seen wire l p (b, h) =
    (seen, subst (λ w. OnAir crc seen w l.app) (sym (++-nil wire)) h)
loop-Reaches (t ∷ ts) crc seen wire l (p, ps) (b, h) =
    let goes : (not l.app.running || l.broken) ≡ false =
      ap (λ r. not r || l.broken) h.running ∙ b in
    simp goes (
      later (frame_of t) ts crc seen wire (loop ts (iterate t l)).app (
        loop-Reaches ts crc (seen_after seen (frame_of t)) (wire_after crc seen wire (frame_of t))
          (iterate t l) ps (iterate-Does crc seen wire t l p (b, h))))

-- With a client that is connected and takes all it is sent, through any polls and reads that are
-- interrupted, come too early, time out or return too little, main_loop has sent the client exactly the
-- frames of the right size, magic, sequence and CRC, in their order, each after its length.
pub main_loop-Reaches :
    (ts : List Turn) (crc : Bool) (seen : Option ℕ) (wire : List ℕ) (a : App)
    → ArePeaceful ts
    → OnAir crc seen wire a
    → Reaches crc seen wire (frames_of ts) (main_loop ts a)
unfolding main_loop
main_loop-Reaches ts crc seen wire a p h =
    loop-Reaches ts crc seen wire (record { app = a; mmap_index = 0; broken = false }) p (refl, h)
