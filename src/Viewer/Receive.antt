-- ===== src/Viewer/Receive.antt =====
-- receive_frame on a stream that brings a whole frame.
use phantom_fpga_final_embed.Base.{
  ℕ, suc, ◌-◌, ◌*◌, ◌≤◌, ◌≡◌, ◌⊎◌, refl, sym, ap, subst, ◌∙◌, inl, inr, Bool, true, false, not,
  ◌&&◌, ◌||◌, List, [], ◌∷◌, ◌++◌, ◌!=◌, if◌then◌else◌, length, take, drop, arith, take_all,
  length-drop, ++-nil,
}
use phantom_fpga_final_embed.App.Server.{htonl}
use phantom_fpga_final_embed.Viewer.{Viewer}
use phantom_fpga_final_embed.Viewer.Constants
use phantom_fpga_final_embed.Viewer.Client.{ReadExact, read_exact}
use phantom_fpga_final_embed.Viewer.Client.Exact.{incoming}
use phantom_fpga_final_embed.Viewer.Whole.{Whole, read-Whole}
use phantom_fpga_final_embed.Viewer.Methods.{
  ntohl, put, leave_at, record_frame, receive_payload, receive_frame,
}
use phantom_fpga_final_embed.Viewer.Stream.{Calm}

-- The recording, if one is wanted, can take so many frames more.
abbrev pub CanRecord : ℕ → Viewer → Type 0
CanRecord n v =
    (v.record_path ≡ false)
    ⊎ ((v.record_path ≡ true)
        × ((v.record_file || v.can_record) ≡ true)
        × (n * Constants.size ≤ v.disk_room))

-- What the file holds from here on: a file that is not open is emptied first.
abbrev pub recorded : Viewer → List ℕ
recorded v = if v.record_file then v.recording else []

-- What a frame adds to it.
abbrev pub to_record : Viewer → List ℕ → List ℕ
to_record v frame = if v.record_path then frame else []

-- Ready for n frames more.
pub record Ready (n : ℕ) (v : Viewer) : Type 0 where
  pub running : v.running ≡ true
  pub calm : Calm v.socket
  pub buffer : length v.frame_buffer ≡ Constants.size
  pub disk : CanRecord n v

-- The same viewer but for the frame and what it brings.
pub record SameBut (v w : Viewer) (frame : List ℕ) : Type 0 where
  pub stats : w.stats ≡ v.stats
  pub terminal : w.terminal ≡ v.terminal
  pub path : w.record_path ≡ v.record_path
  pub recording : recorded w ≡ recorded v ++ to_record v frame

pub record Received (n : ℕ) (v : Viewer) (frame rest : List ℕ) (r : Bool × Viewer) : Type 0 where
  pub got : r.0 ≡ true
  pub frame_in : r.1.frame_buffer ≡ frame
  pub left : incoming r.1.socket ≡ rest
  pub ready : Ready n r.1
  pub same : SameBut v r.1 frame

written : Viewer → Viewer
written v = record v {
  record_file = true;
  recording = recorded v ++ v.frame_buffer;
  disk_room = v.disk_room - Constants.size;
}

record_frame-off : (v : Viewer) → v.record_path ≡ false → record_frame v ≡ (true, v)
unfolding record_frame
record_frame-off v off = simp off refl

record_frame-on :
    (v : Viewer)
    → v.record_path ≡ true
    → (v.record_file || v.can_record) ≡ true
    → Constants.size ≤ v.disk_room
    → length v.frame_buffer ≡ Constants.size
    → record_frame v ≡ (true, written v)
unfolding record_frame written
record_frame-on v on opens room whole =
    let all : take v.disk_room v.frame_buffer ≡ v.frame_buffer =
      take_all v.disk_room v.frame_buffer (omega arith) in
    let open_ : (not v.record_file && not v.can_record) ≡ false = ground arith in
    simp (on, open_, all, whole) refl

record_frame-Received :
    (n : ℕ) (v : Viewer) (rest : List ℕ)
    → Ready (suc n) v
    → incoming v.socket ≡ rest
    → Received n v v.frame_buffer rest (record_frame v)
unfolding written
record_frame-Received n v rest h e = go h.disk
  where
    go : CanRecord (suc n) v → Received n v v.frame_buffer rest (record_frame v)
    go (inl off) = subst (Received n v v.frame_buffer rest) (sym (record_frame-off v off)) (record {
      got = refl;
      frame_in = refl;
      left = e;
      ready = record { running = h.running; calm = h.calm; buffer = h.buffer; disk = inl off };
      same = record {
        stats = refl;
        terminal = refl;
        path = refl;
        recording =
            sym (
              ap (λ b. recorded v ++ (if b then v.frame_buffer else [])) off ∙ ++-nil (recorded v));
      };
    })
    go (inr (on, opens, room)) =
        subst (Received n v v.frame_buffer rest)
          (sym (record_frame-on v on opens (omega arith) h.buffer))
          (record {
            got = refl;
            frame_in = refl;
            left = e;
            ready = record {
              running = h.running;
              calm = h.calm;
              buffer = h.buffer;
              disk = inr (on, refl, omega arith);
            };
            same = record {
              stats = refl;
              terminal = refl;
              path = refl;
              recording = sym (ap (λ b. recorded v ++ (if b then v.frame_buffer else [])) on);
            };
          })

-- The second read puts the frame over all of the buffer.
payload-complete :
    (v : Viewer)
    → (read_exact Constants.size v.running v.socket).complete ≡ true
    → receive_payload v ≡ record_frame (put (read_exact Constants.size v.running v.socket) v)
unfolding receive_payload
payload-complete v e = simp e refl

-- A buffer that is filled to its end.
put-frame :
    (r : ReadExact) (v : Viewer) (frame rest : List ℕ)
    → Whole frame rest r
    → length frame ≡ length v.frame_buffer
    → (put r v).frame_buffer ≡ frame
put-frame r v frame rest x l =
    let nothing_left : drop (length r.taken) v.frame_buffer ≡ [] =
      empty (drop (length r.taken) v.frame_buffer)
        (omega (arith, length-drop (length r.taken) v.frame_buffer, ap length x.taken)) in
    ap (λ t. r.taken ++ t) nothing_left ∙ ++-nil r.taken ∙ x.taken
  where
    empty : (xs : List ℕ) → length xs ≡ 0 → xs ≡ []
    empty [] e = refl
    empty (x ∷ xs) e = absurd (omega arith)

receive_payload-Received :
    (n : ℕ) (v : Viewer) (frame rest : List ℕ)
    → Ready (suc n) v
    → incoming v.socket ≡ frame ++ rest
    → length frame ≡ Constants.size
    → Received n v frame rest (receive_payload v)
receive_payload-Received n v frame rest h e l =
    let r = read_exact Constants.size v.running v.socket in
    let x : Whole frame rest (read_exact Constants.size v.running v.socket) =
      subst (λ b. Whole frame rest (read_exact Constants.size b v.socket)) (sym h.running)
        (read-Whole frame rest Constants.size v.socket h.calm e l) in
    let filled = put-frame r v frame rest x (omega (arith, h.buffer)) in
    let y =
      record_frame-Received n (put r v) rest
        (record {
          running = x.running;
          calm = x.calm;
          buffer = ap length filled ∙ l;
          disk = h.disk;
        })
        x.left in
    subst (Received n v frame rest) (sym (payload-complete v x.complete)) (record {
      got = y.got;
      frame_in = y.frame_in ∙ filled;
      left = y.left;
      ready = y.ready;
      same = record {
        stats = y.same.stats;
        terminal = y.same.terminal;
        path = y.same.path;
        recording = y.same.recording ∙ ap (λ f. recorded v ++ to_record v f) filled;
      };
    })

frame-complete :
    (v : Viewer)
    → (read_exact 4 v.running v.socket).complete ≡ true
    → (ntohl (read_exact 4 v.running v.socket).taken != Constants.size) ≡ false
    → receive_frame v ≡ receive_payload (leave_at (read_exact 4 v.running v.socket) v)
unfolding receive_frame
frame-complete v e f = simp (e, f) refl

-- If the length of a frame and a frame come in next, receive_frame takes both, puts the frame in the
-- buffer and records it, in whatever pieces they come.
pub receive_frame-Received :
    (n : ℕ) (v : Viewer) (frame rest : List ℕ)
    → Ready (suc n) v
    → incoming v.socket ≡ htonl Constants.size ++ (frame ++ rest)
    → length frame ≡ Constants.size
    → Received n v frame rest (receive_frame v)
receive_frame-Received n v frame rest h e l =
    let r = read_exact 4 v.running v.socket in
    let prefix = htonl Constants.size in
    let x : Whole prefix (frame ++ rest) (read_exact 4 v.running v.socket) =
      subst (λ b. Whole prefix (frame ++ rest) (read_exact 4 b v.socket)) (sym h.running)
        (read-Whole prefix (frame ++ rest) 4 v.socket h.calm e refl) in
    let right_length : (ntohl r.taken != Constants.size) ≡ false =
      ap (λ t. ntohl t != Constants.size) x.taken in
    let y =
      receive_payload-Received n (leave_at r v) frame rest
        (record { running = x.running; calm = x.calm; buffer = h.buffer; disk = h.disk }) x.left
        l in
    subst (Received n v frame rest) (sym (frame-complete v x.complete right_length)) (record {
      got = y.got;
      frame_in = y.frame_in;
      left = y.left;
      ready = y.ready;
      same = record {
        stats = y.same.stats;
        terminal = y.same.terminal;
        path = y.same.path;
        recording = y.same.recording;
      };
    })
