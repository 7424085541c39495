-- ===== src/TaskLib/EndOfFile.antt =====
-- What readContechTaskUnlock of common/taskLib/Task.cpp returns at the end of a file.
use syncd_sim.Base.{
  ℕ, zero, suc, ◌-◌, ◌<◌, ◌≤◌, false, List, [], ◌∷◌, ◌++◌, ◌==◌, ltb, lt→ltb, ltb→lt, length,
  length-append, append_nil, take, drop, none, ◌≡◌, ◌⊎◌, refl, ap, ◌∙◌, arith, Bool-cases, inl, inr,
}
use syncd_sim.Base.Effects.{ok}
use syncd_sim.Base.Effects.Steps.{Runs, Runs-bind, Runs-pure, Runs-if_true}
use syncd_sim.TaskLib.Codec.{Zlib, fread, ct_read, ct_read_loop, read_contech_task}
use syncd_sim.TaskLib.RoundTrip.{Runs-ct_read}

take_all : (n : ℕ) (xs : List ℕ) → length xs ≤ n → take n xs ≡ xs
take_all zero [] h = refl
take_all zero (x ∷ xs) h = absurd (omega arith)
take_all (suc n) [] h = refl
take_all (suc n) (x ∷ xs) h = ap (λ ys. x ∷ ys) (take_all n xs (omega arith))

drop_all : (n : ℕ) (xs : List ℕ) → length xs ≤ n → drop n xs ≡ []
drop_all zero [] h = refl
drop_all zero (x ∷ xs) h = absurd (omega arith)
drop_all (suc n) [] h = refl
drop_all (suc n) (x ∷ xs) h = drop_all n xs (omega arith)

-- A list that is long enough, in two parts.
split_at :
    (n : ℕ) (xs : List ℕ)
    → n ≤ length xs
    → (ys : List ℕ) × (zs : List ℕ) × (ys ++ zs ≡ xs) × (length ys ≡ n)
split_at zero xs h = ([], xs, refl, refl)
split_at (suc n) [] h = absurd (omega arith)
split_at (suc n) (x ∷ xs) h =
    let (ys, zs, e, l) = split_at n xs (omega arith) in (x ∷ ys, zs, ap (λ us. x ∷ us) e, ap suc l)

fread_all : (n : ℕ) (file : List ℕ) → length file ≤ n → fread n file ≡ (file, [])
unfolding fread
fread_all n file h = rw (take_all n file h, drop_all n file h)

-- At the end of the file the loop stops with what it has.
last_round :
    (fuel size : ℕ) (read : List ℕ) → ct_read_loop (suc fuel) size read [] ≡ ok (read ++ [], [])
unfolding ct_read_loop
last_round fuel size read = rw (fread_all (size - length read) [] (omega arith))

-- A round that reads something, and less than is asked for, is followed by another.
next_round :
    (fuel size : ℕ) (file r file' : List ℕ)
    → fread (size - 0) file ≡ (r, file')
    → (length r == 0) ≡ false
    → length r < size
    → ct_read_loop (suc fuel) size [] file ≡ ct_read_loop fuel size r file'
unfolding ct_read_loop
next_round fuel size file r file' e some_read h = rw (e, some_read, lt→ltb _ _ h)

short_round :
    (fuel size : ℕ) (b : ℕ) (bs : List ℕ)
    → length (b ∷ bs) < size
    → ct_read_loop (suc (suc fuel)) size [] (b ∷ bs) ≡ ok (b ∷ bs, [])
short_round fuel size b bs h =
    first ∙ last_round fuel size (b ∷ bs) ∙ ap (λ xs. ok (xs, [])) (append_nil (b ∷ bs))
  where
    first :
        ct_read_loop (suc (suc fuel)) size [] (b ∷ bs) ≡ ct_read_loop (suc fuel) size (b ∷ bs) []
    first =
        next_round (suc fuel) size (b ∷ bs) (b ∷ bs) []
          (fread_all (size - 0) (b ∷ bs) (omega arith)) (ground arith) h

-- A file with less than is asked for is read to its end.
Runs-ct_read_short : (n : ℕ) (file : List ℕ) → length file < n → Runs (ct_read n) file file []
unfolding ct_read
Runs-ct_read_short n [] h = record { result = last_round 1 n [] }
Runs-ct_read_short n (b ∷ bs) h = record { result = short_round _ n b bs h }

-- Reading a task where fewer than 16 bytes are left returns a null pointer, with the file at its
-- end.
pub read_contech_task-short :
    (z : Zlib) (file : List ℕ) → length file < 16 → read_contech_task z file ≡ ok (none, [])
unfolding read_contech_task
read_contech_task-short z file h = elim (shorter (length file) 8) [
  | inl less ↦
      (Runs-bind _ (Runs-ct_read_short 8 file less)
        (Runs-bind _ (Runs-ct_read_short 8 [] (omega arith)) (Runs-pure none []))).result
  | inr more ↦
      let (ys, zs, e, l) = split_at 8 file more in
      let first = rw (l) at (Runs-ct_read ys zs) in
      let rest : length zs < 8 = omega (arith, ap length e, length-append ys zs) in
      rw (← e) (
        (Runs-bind _ first (
          Runs-bind _ (Runs-ct_read_short 8 zs rest)
            (Runs-if_true _ _ (lt→ltb _ _ rest) (Runs-pure none [])))).result)
]
  where
    shorter : (a b : ℕ) → (a < b) ⊎ (b ≤ a)
    shorter a b = elim (Bool-cases (ltb a b)) [
      | inl e ↦ inl (ltb→lt a b e)
      | inr e ↦ inr (ground arith)
    ]
