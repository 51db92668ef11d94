-- ===== src/Viewer/Client/Exact.antt =====
-- read_exact against the bytes that the stream brings, however they are cut up.
use phantom_fpga_final_embed.Base.{
  ℕ, zero, suc, ◌-◌, ◌≤◌, ◌<◌, ◌≡◌, ◌↔◌, refl, sym, ap, ◌∙◌, Bool, true, false, not, List, [], ◌∷◌,
  ◌++◌, if◌then◌else◌, if_cases, leb, length, take, drop, arith, take-++, drop-++, take-past,
  drop-past, ++-nil, length-++, subst,
}
use phantom_fpga_final_embed.Viewer.Client.{
  Arrival, arrived, interrupted, failed, ReadExact, read_exact, leave, after,
}

-- The bytes that come in before the stream ends, fails, or the signal handler has run.
abbrev pub incoming : List Arrival → List ℕ
incoming [] = []
incoming (failed ∷ s) = []
incoming (interrupted true ∷ s) = []
incoming (interrupted false ∷ s) = incoming s
incoming (arrived stop [] ∷ s) = []
incoming (arrived true (b ∷ bs) ∷ s) = b ∷ bs
incoming (arrived false (b ∷ bs) ∷ s) = (b ∷ bs) ++ incoming s

-- What a call does where these bytes come in: it completes if and only if they are enough, has in any
-- case taken the first ones, and leaves the others.
pub record Exact (n : ℕ) (bytes : List ℕ) (r : ReadExact) : Type 0 where
  pub enough : (r.complete ≡ true) ↔ (n ≤ length bytes)
  pub first : r.taken ≡ take n bytes
  pub others : r.complete ≡ true → r.running ≡ true → incoming r.socket ≡ drop n bytes

pub incoming-leave : (bs : List ℕ) (s : List Arrival) → incoming (leave bs s) ≡ bs ++ incoming s
incoming-leave [] s = refl
incoming-leave (b ∷ bs) s = refl

-- Nothing came in.
none_left :
    (n : ℕ) (s : List Arrival) (running : Bool)
    → Exact (suc n) [] (record { complete = false; taken = []; socket = s; running = running })
none_left n s running = record { enough = ground arith; first = refl; others = λ c _. ground arith }

-- The next round, for what a short read left to do.
short_read :
    (n : ℕ) (got more : List ℕ) (r : ReadExact)
    → length got ≤ n
    → Exact (n - length got) more r
    → Exact n (got ++ more) (after got r)
short_read n got more r short x = record {
  enough = ground (arith, length-++ got more, x.enough);
  first = ap (λ bs. got ++ bs) x.first ∙ sym (take-past n got more short);
  others = λ c run. x.others c run ∙ sym (drop-past n got more short);
}

-- The last round: the read finds at least what is left to do.
long_read :
    (n : ℕ) (got : List ℕ) (stop : Bool) (s : List Arrival)
    → n ≤ length got
    → Exact n (if stop then got else got ++ incoming s) (record {
      complete = true;
      taken = take n got;
      socket = leave (drop n got) s;
      running = not stop;
    })
long_read n got true s h = record {
  enough = ground arith;
  first = refl;
  others = λ c run. ground arith;
}
long_read n got false s h = record {
  enough = ground (arith, length-++ got (incoming s));
  first = sym (take-++ n got (incoming s) h);
  others = λ c run. incoming-leave (drop n got) s ∙ sym (drop-++ n got (incoming s) h);
}

-- Once the flag is cleared, a read that is not complete stops.
stopped : (n : ℕ) (s : List Arrival) → 0 < n → Exact n [] (read_exact n false s)
unfolding read_exact
stopped zero s h = absurd (omega arith)
stopped (suc n) s h = none_left n s false

-- With the flag set, read_exact fills the buffer if and only if enough bytes come in before the stream
-- ends, fails or the signal handler runs, in whatever pieces and with whatever interruptions. It has
-- then taken the first bytes and leaves the others; if it fails, it has taken all there were.
pub read_exact-Exact : (n : ℕ) (s : List Arrival) → Exact n (incoming s) (read_exact n true s)
unfolding read_exact
read_exact-Exact zero s = record { enough = ground arith; first = refl; others = λ c run. refl }
read_exact-Exact (suc n) [] = none_left n [] true
read_exact-Exact (suc n) (failed ∷ s) = none_left n s true
read_exact-Exact (suc n) (interrupted true ∷ s) = none_left n s false
read_exact-Exact (suc n) (interrupted false ∷ s) = read_exact-Exact (suc n) s
read_exact-Exact (suc n) (arrived stop [] ∷ s) = none_left n s (not stop)
read_exact-Exact (suc n) (arrived true (b ∷ bs) ∷ s) =
    let got = b ∷ bs in
    if_cases (Exact (suc n) got) (leb (suc n) (length got))
      (λ h. long_read (suc n) got true s (ground arith))
      (λ h.
        subst (λ t. Exact (suc n) t (after got (read_exact (suc n - length got) false s)))
          (++-nil got)
          (short_read (suc n) got [] (read_exact (suc n - length got) false s) (ground arith)
            (stopped (suc n - length got) s (ground arith))))
read_exact-Exact (suc n) (arrived false (b ∷ bs) ∷ s) =
    let got = b ∷ bs in
    if_cases (Exact (suc n) (got ++ incoming s)) (leb (suc n) (length got))
      (λ h. long_read (suc n) got false s (ground arith))
      (λ h.
        short_read (suc n) got (incoming s) (read_exact (suc n - length got) true s) (ground arith)
          (read_exact-Exact (suc n - length got) s))
