-- ===== src/Directory/Masks.antt =====
-- The bits of a mask as the list of the contexts that they stand for.
use syncd_sim.Base.{
  ◌++◌, subst, ◌∙◌, lt→ltb, length-append, append_assoc, ℕ, suc, zero, ℤ, pos, negsuc, ◌+◌, ◌≤◌,
  ◌<◌, ◌≡◌, ◌≢◌, refl, ap, Bool, true, false, List, [], ◌∷◌, arith, ◌==◌, length, set, All,
  Bool-cases, inl, inr,
}
use syncd_sim.Base.Effects.{ok}
use syncd_sim.Directory.{is_id, new_mask, fill_mask}

-- The contexts whose bit is set, the first bit being that of context `i`.
unfoldable pub holders : ℕ → List Bool → List ℕ
holders i [] = []
holders i (true ∷ bs) = i ∷ holders (suc i) bs
holders i (false ∷ bs) = holders (suc i) bs

pub length-new_mask : (p : ℤ) (i k : ℕ) → length (new_mask p i k) ≡ k
unfolding new_mask
length-new_mask p i zero = refl
length-new_mask p i (suc k) = ap suc (length-new_mask p (suc i) k)

set-append :
    (pre bs : List Bool) (b v : Bool) → set (pre ++ b ∷ bs) (length pre) v ≡ (pre ++ v ∷ []) ++ bs
set-append [] bs b v = refl
set-append (c ∷ pre) bs b v = ap (λ r. c ∷ r) (set-append pre bs b v)

fill_mask-append :
    (p : ℤ) (k : ℕ) (pre post : List Bool)
    → length post ≡ k
    → fill_mask p (length pre) k (pre ++ post) ≡ ok (pre ++ new_mask p (length pre) k)
unfolding fill_mask new_mask
fill_mask-append p zero pre [] h = refl
fill_mask-append p zero pre (b ∷ bs) h = absurd (omega arith)
fill_mask-append p (suc k) pre [] h = absurd (omega arith)
fill_mask-append p (suc k) pre (b ∷ bs) h =
    let v = is_id p (length pre) in
    rw
      (
        lt→ltb (length pre) (length (pre ++ b ∷ bs)) (omega (arith, length-append pre (b ∷ bs))),
        set-append pre bs b v,
        fill_mask,
      )
      (subst (λ n. fill_mask p n k ((pre ++ v ∷ []) ++ bs) ≡ ok ((pre ++ v ∷ []) ++ new_mask p n k))
          {x = length (pre ++ v ∷ [])} (omega (arith, length-append pre (v ∷ [])))
          (fill_mask-append p k (pre ++ v ∷ []) bs (omega arith))
        ∙ ap ok (append_assoc pre (v ∷ []) (new_mask p (suc (length pre)) k)))

-- On a mask with a bit for each context the loop stays in bounds and writes all of it.
pub fill_mask_lem :
    (p : ℤ) (n : ℕ) (mask : List Bool)
    → length mask ≡ n
    → fill_mask p 0 n mask ≡ ok (new_mask p 0 n)
fill_mask_lem p n mask h = fill_mask-append p n [] mask h

pub holders-new_mask_none : (m i k : ℕ) → holders i (new_mask (negsuc m) i k) ≡ []
unfolding holders new_mask
holders-new_mask_none m i zero = refl
holders-new_mask_none m i (suc k) = holders-new_mask_none m (suc i) k

holders-new_mask_past : (p i k : ℕ) → p < i → holders i (new_mask (pos p) i k) ≡ []
unfolding holders new_mask
holders-new_mask_past p i zero h = refl
holders-new_mask_past p i (suc k) h = ground (arith, holders-new_mask_past p (suc i) k)

-- A new mask for a context has its bit and no other.
pub holders-new_mask : (p i k : ℕ) → i ≤ p → p < i + k → holders i (new_mask (pos p) i k) ≡ p ∷ []
unfolding holders new_mask
holders-new_mask p i zero h lt = absurd (omega arith)
holders-new_mask p i (suc k) h lt = elim (Bool-cases (i == p)) [
  | inl e ↦ ground (arith, holders-new_mask_past p (suc i) k)
  | inr e ↦ ground (arith, holders-new_mask p (suc i) k)
]

pub holders-range : (n i : ℕ) (bs : List Bool) → i + length bs ≤ n → All (λ p. p < n) (holders i bs)
unfolding holders
holders-range n i [] h = tt
holders-range n i (true ∷ bs) h = (omega arith, holders-range n (suc i) bs (omega arith))
holders-range n i (false ∷ bs) h = holders-range n (suc i) bs (omega arith)

pub holders-set : (i p : ℕ) (bs : List Bool) → p < length bs → holders i (set bs p true) ≢ []
unfolding holders
holders-set i p [] h = absurd (omega arith)
holders-set i zero (b ∷ bs) h = cc
holders-set i (suc p) (true ∷ bs) h = cc
holders-set i (suc p) (false ∷ bs) h = holders-set (suc i) p bs (omega arith)
