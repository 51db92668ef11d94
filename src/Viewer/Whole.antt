-- ===== src/Viewer/Whole.antt =====
-- read_exact where exactly the bytes it asks for come in first.
use phantom_fpga_final_embed.Base.{
  ℕ, ◌≤◌, ◌≡◌, refl, sym, ap, ◌∙◌, true, List, [], ◌∷◌, ◌++◌, length, take, drop, arith, take-++,
  take_all, length-++,
}
use phantom_fpga_final_embed.Viewer.Client.{Arrival, ReadExact, read_exact}
use phantom_fpga_final_embed.Viewer.Client.Exact.{incoming, read_exact-Exact}
use phantom_fpga_final_embed.Viewer.Stream.{Calm, read_exact-StaysCalm}

drop_all : (xs ys : List ℕ) → drop (length xs) (xs ++ ys) ≡ ys
drop_all [] ys = refl
drop_all (x ∷ xs) ys = drop_all xs ys

-- A read that gets these bytes and leaves those.
pub record Whole (bytes rest : List ℕ) (r : ReadExact) : Type 0 where
  pub complete : r.complete ≡ true
  pub taken : r.taken ≡ bytes
  pub running : r.running ≡ true
  pub calm : Calm r.socket
  pub left : incoming r.socket ≡ rest

pub read-Whole :
    (bytes rest : List ℕ) (n : ℕ) (s : List Arrival)
    → Calm s
    → incoming s ≡ bytes ++ rest
    → length bytes ≡ n
    → Whole bytes rest (read_exact n true s)
read-Whole bytes rest n s calm e l =
    let x = read_exact-Exact n s in
    let (run, calm') = read_exact-StaysCalm n s calm in
    let total : n ≤ length (incoming s) = omega (arith, ap length e, length-++ bytes rest) in
    let done = x.enough.1 total in
    record {
      complete = done;
      taken =
          x.first
          ∙ ap (take n) e
          ∙ take-++ n bytes rest (omega arith)
          ∙ take_all n bytes (omega arith);
      running = run;
      calm = calm';
      left =
          x.others done run
          ∙ ap (drop n) e
          ∙ ap (λ m. drop m (bytes ++ rest)) (sym l)
          ∙ drop_all bytes rest;
    }
