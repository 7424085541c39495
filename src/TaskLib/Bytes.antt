-- ===== src/TaskLib/Bytes.antt =====
-- Integers as bytes in memory, lowest first, and the reads of common/taskLib/ct_file.c. What a
-- reader has before it is the list of the bytes that are left.
use syncd_sim.Base.{
  ℕ, zero, suc, ◌+◌, ◌*◌, ◌/◌, ◌%◌, ◌^◌, ◌<◌, ◌≡◌, refl, ap, List, [], ◌∷◌, ◌++◌, length, arith,
}
use native.Mathlib.Nat.{pow-suc}
use syncd_sim.Base.Effects.Steps.{Runs, Runs-bind}
use syncd_sim.Base.Effects.{Exec, pure, ok, err, ◌>>=◌, stray_memory}

abbrev pub IsByte : ℕ → Type 0
IsByte b = b < 256

unfoldable pub to_bytes : ℕ → ℕ → List ℕ
to_bytes zero n = []
to_bytes (suc w) n = (n % 256) ∷ to_bytes w (n / 256)

unfoldable pub of_bytes : List ℕ → ℕ
of_bytes [] = 0
of_bytes (b ∷ bs) = b + 256 * of_bytes bs

pub of_bytes-to_bytes : (w n : ℕ) → n < 256 ^ w → of_bytes (to_bytes w n) ≡ n
unfolding of_bytes to_bytes
of_bytes-to_bytes zero n h = omega arith
of_bytes-to_bytes (suc w) n h =
    omega (arith, of_bytes-to_bytes w (n / 256) (omega (arith, pow-suc 256 w)), pow-suc 256 w)

pub length-to_bytes : (w n : ℕ) → length (to_bytes w n) ≡ w
unfolding to_bytes
length-to_bytes zero n = refl
length-to_bytes (suc w) n = ap suc (length-to_bytes w (n / 256))

-- `n` bytes of a buffer.
unfoldable pub take_bytes : ℕ → Exec (List ℕ) (List ℕ)
take_bytes zero bs = ok ([], bs)
take_bytes (suc n) [] = err stray_memory
take_bytes (suc n) (b ∷ bs) = elim (take_bytes n bs) [
  | ok (front, rest) ↦ ok (b ∷ front, rest)
  | err e ↦ err e
]

-- `memcpy(&x, buffer + pos, w); pos += w;` for an integer of `w` bytes.
unfoldable pub get_word : ℕ → Exec (List ℕ) ℕ
get_word w = do bs ← take_bytes w; pure (of_bytes bs)

take_bytes-to_bytes :
    (w n : ℕ) (rest : List ℕ) → take_bytes w (to_bytes w n ++ rest) ≡ ok (to_bytes w n, rest)
unfolding take_bytes to_bytes
take_bytes-to_bytes zero n rest = refl
take_bytes-to_bytes (suc w) n rest = rw (take_bytes-to_bytes w (n / 256) rest)

pub take_bytes-append : (bs rest : List ℕ) → take_bytes (length bs) (bs ++ rest) ≡ ok (bs, rest)
unfolding take_bytes
take_bytes-append [] rest = refl
take_bytes-append (b ∷ bs) rest = rw (take_bytes-append bs rest)

pub Runs-get_word :
    (w n : ℕ) (rest : List ℕ) → n < 256 ^ w → Runs (get_word w) (to_bytes w n ++ rest) n rest
unfolding get_word
Runs-get_word w n rest h =
    Runs-bind _ (record { result = take_bytes-to_bytes w n rest })
      (record { result = ap (λ m. ok (m, rest)) (of_bytes-to_bytes w n h) })
