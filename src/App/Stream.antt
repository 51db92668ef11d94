-- ===== src/App/Stream.antt =====
-- main_loop while a client is there: what it has been sent.
use mathlib.Core.Option
use phantom_fpga_final_embed.Base.{
  ℕ, ◌≤◌, ◌≡◌, refl, sym, ap, subst, ◌∙◌, Bool, true, false, ◌&&◌, List, [], ◌++◌, Option, none,
  some, if◌then◌else◌, if_cases, ◌==◌, ==_iff, ◌↔◌, is_none, length, add64, take_all, ++-assoc,
  ++-nil,
}
use phantom_fpga_final_embed.Regs.{frame_size}
use phantom_fpga_final_embed.App.{App, Effect, TcpServer, on_server, on_some_server}
use phantom_fpga_final_embed.App.Server.{Send, sent_of, taken_of, htonl, send_payload, send_frame}
use phantom_fpga_final_embed.App.Frames.{send_to_client, judge, counted, process_frame}
use phantom_fpga_final_embed.App.Forward.{next_seen, passes, seen_by, validate_frame-Judges}

-- Both calls take all they are given.
abbrev pub SendsAll : Send → Send → List ℕ → Type 0
SendsAll first second f =
    ((n : ℕ) × (first.sent ≡ some n) × (4 ≤ n))
    × ((m : ℕ) × (second.sent ≡ some m) × (length f ≤ m))

-- The client of a server, and what it has been sent.
abbrev pub Serves : List ℕ → TcpServer → Type 0
Serves wire s = ((fd : ℕ) × (s.client_fd ≡ some fd)) × (s.wire ≡ wire)

sent_all :
    (call : Send) (n : ℕ) (bytes : List ℕ)
    → call.sent ≡ some n
    → length bytes ≤ n
    → sent_of call bytes ≡ bytes
sent_all call n bytes e h = ap (λ o. taken_of o bytes) e ∙ take_all n bytes h

send_frame-Serves :
    (first second : Send) (f wire : List ℕ) (s : TcpServer) (log : List Effect)
    → SendsAll first second f
    → length f ≡ frame_size
    → Serves wire s
    → Serves (wire ++ (htonl frame_size ++ f)) (send_to_client first second f (s, log)).0
unfolding send_to_client send_frame send_payload
send_frame-Serves first second f wire s log ((n, e, h), (m, g, k)) l ((fd, c), w) =
    let header = sent_all first n (htonl (length f)) e h in
    let body = sent_all second m f g k in
    let connected : is_none s.client_fd ≡ false = ap is_none c in
    let some_header : (length (sent_of first (htonl (length f))) == 0) ≡ false =
      ap (λ t. length t == 0) header in
    let some_body : (length (sent_of second f) == 0) ≡ false =
      ap (λ t. length t == 0) body ∙ ap (λ t. t == 0) l in
    simp (connected, some_header, some_body)
      (
        (fd, c),
        ++-assoc s.wire (sent_of first (htonl (length f))) (sent_of second f)
            ∙ ap (λ t. t ++ (sent_of first (htonl (length f)) ++ sent_of second f)) w
            ∙ ap (λ t. wire ++ (t ++ sent_of second f)) (header ∙ ap htonl l)
            ∙ ap (λ t. wire ++ (htonl frame_size ++ t)) body,
      )

-- The application with a client connected, reading frames, whose last frame was `seen` and which has
-- sent its client `wire`.
pub record OnAir (crc : Bool) (seen : Option ℕ) (wire : List ℕ) (a : App) : Type 0 where
  pub copies : a.config.zero_copy ≡ false
  pub checks : a.config.validate_crc ≡ crc
  pub running : a.running ≡ true
  pub last : seen_by a.stats ≡ seen
  pub server : (s : TcpServer) × (a.tcp_server ≡ some s) × Serves wire s

-- What a frame adds to the wire.
abbrev pub wire_of : Bool → List ℕ → List ℕ
wire_of passed f = if passed then htonl frame_size ++ f else []

pub on_server-OnAir :
    (g : TcpServer × List Effect → TcpServer × List Effect) (crc : Bool) (seen : Option ℕ)
    (wire wire' : List ℕ) (a : App)
    → ((s : TcpServer) (log : List Effect) → Serves wire s → Serves wire' (g (s, log)).0)
    → OnAir crc seen wire a
    → OnAir crc seen wire' (on_server g a)
on_server-OnAir g crc seen wire wire' a step h = go a.tcp_server refl h.server
  where
    go :
        (o : Option TcpServer)
        → a.tcp_server ≡ o
        → ((s : TcpServer) × (o ≡ some s) × Serves wire s)
        → OnAir crc seen wire' (on_some_server g o a)
    go none e (s, f, serves) = cc
    go (some t) e (s, f, serves) = record {
      copies = h.copies;
      checks = h.checks;
      running = h.running;
      last = h.last;
      server = (
        (g (t, a.log)).0,
        refl,
        step t a.log (subst (Serves wire) (sym (Option.some-injective t s f)) serves),
      );
    }

counted-OnAir :
    (crc : Bool) (seen : Option ℕ) (wire f : List ℕ) (a : App)
    → OnAir crc seen wire a
    → OnAir crc (next_seen seen f) wire (counted f a) × ((judge f a).0 ≡ passes crc seen f)
counted-OnAir crc seen wire f a h =
    let before = record (a.stats) { frames_received = add64 a.stats.frames_received 1 } in
    let (verdict, goes_on) = validate_frame-Judges a.config.validate_crc f before in
    (
      record {
        copies = h.copies;
        checks = h.checks;
        running = h.running;
        last = goes_on ∙ ap (λ t. next_seen t f) h.last;
        server = h.server;
      },
      verdict ∙ ap (λ t. passes t (seen_by before) f) h.checks ∙ ap (λ t. passes crc t f) h.last,
    )

passes-length :
    (crc : Bool) (seen : Option ℕ) (f : List ℕ) → passes crc seen f ≡ true → length f ≡ frame_size
passes-length crc seen f e = sized (length f == frame_size) _ e (==_iff (length f) frame_size)
  where
    sized :
        (z x : Bool)
        → (z && x) ≡ true
        → ((z ≡ true) ↔ (length f ≡ frame_size))
        → length f ≡ frame_size
    sized true x e i = i.0 refl
    sized false x e i = cc

-- The frame goes to the client after its length, if it passes.
pub process_frame-OnAir :
    (first second : Send) (f : List ℕ) (crc : Bool) (seen : Option ℕ) (wire : List ℕ) (a : App)
    → SendsAll first second f
    → OnAir crc seen wire a
    → OnAir crc
        (next_seen seen f)
        (wire ++ wire_of (passes crc seen f) f)
        (process_frame first second f a)
unfolding process_frame
process_frame-OnAir first second f crc seen wire a sends h =
    let (x, verdict) = counted-OnAir crc seen wire f a h in
    let after = next_seen seen f in
    if_cases (OnAir crc after (wire ++ wire_of (passes crc seen f) f)) (judge f a).0
      (λ ok.
        let passed = sym verdict ∙ ok in
        subst
          (λ b.
            OnAir crc after (wire ++ wire_of b f)
              (on_server (send_to_client first second f) (counted f a)))
          (sym passed)
          (on_server-OnAir (send_to_client first second f) crc after wire
            (wire ++ (htonl frame_size ++ f)) (counted f a)
            (λ s log.
              send_frame-Serves first second f wire s log sends (passes-length crc seen f passed))
            x))
      (λ bad.
        subst (λ b. OnAir crc after (wire ++ wire_of b f) (counted f a)) (sym (sym verdict ∙ bad))
          (subst (λ t. OnAir crc after t (counted f a)) (sym (++-nil wire)) x))
