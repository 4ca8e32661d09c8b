-- ===== src/Utils/BinSearch/Laws.antt =====
-- `binsearch_by_key` against a linear scan.
use symbolserver.Prelude.{
  All, ℕ, zero, suc, ◌+◌, ◌-◌, ◌/◌, ◌<◌, ◌≤◌, ◌≡◌, ◌∙◌, refl, sym, not, ◌&&◌, Bool, true, false,
}
use symbolserver.Prelude.{
  Option, none, some, List, [], ◌∷◌, arith, ltb, ltb→lt, lt→ltb, if◌then◌else◌,
}
use symbolserver.Prelude.{
  length, get_elem?, get_elem?-lt, lt_of_get_elem?, Bool-cases, inl, inr, ◌⊎◌,
}
use symbolserver.Prelude.Order.{Ord, ◌<?◌, lt_of_lt_of_le, le_trans_<?, <?_irrefl, eq_of_not_<?}
use mathlib.Core.Option.{some-injective}
use native.Mathlib.Decide.{dec_lt}
use symbolserver.Errors.{ok}
use symbolserver.Utils.BinSearch.{index, search_loop, pick, binsearch_by_key}

module _ {ℓ κ} {A : Type ℓ} {B : Type κ} ⦃o : Ord B⦄ (f : A → B) where
  -- Keys never fall along the slice.
  abbrev pub IsSorted : List A → Type ℓ
  IsSorted xs =
      (i j : ℕ) (x y : A)
      → i ≤ j
      → get_elem? xs i ≡ some x
      → get_elem? xs j ≡ some y
      → (f y <? f x) ≡ false

  -- The specification: the last element whose key is not above `item`, by a scan of all.
  pub last_le_from : Option A → List A → B → Option A
  last_le_from best [] item = best
  last_le_from best (x ∷ xs) item = last_le_from (if item <? f x then best else some x) xs item

  unfoldable pub last_le : List A → B → Option A
  unfolding last_le_from
  last_le xs item = last_le_from none xs item

  -- `p` splits the slice into keys not above `item` and keys above it.
  record Splits (xs : List A) (item : B) (low high : ℕ) : Type ℓ where
    ordered : low ≤ high
    inside : high ≤ length xs
    below : (i : ℕ) (x : A) → i < low → get_elem? xs i ≡ some x → (item <? f x) ≡ false
    above : (i : ℕ) (x : A) → high ≤ i → get_elem? xs i ≡ some x → (item <? f x) ≡ true

  module _ (xs : List A) (sorted : IsSorted xs) (item : B) where
    narrow_high :
        (low high m : ℕ) (y : A)
        → Splits xs item low high
        → low ≤ m
        → m < high
        → get_elem? xs m ≡ some y
        → (item <? f y) ≡ true
        → Splits xs item low m
    narrow_high low high m y s p q e h = record {
      ordered = p;
      inside = omega arith;
      below = s.below;
      above = λ i x le g. lt_of_lt_of_le item (f y) (f x) h (sorted m i y x le e g);
    }

    narrow_low :
        (low high m : ℕ) (y : A)
        → Splits xs item low high
        → m < high
        → get_elem? xs m ≡ some y
        → (item <? f y) ≡ false
        → Splits xs item (m + 1) high
    narrow_low low high m y s q e h = record {
      ordered = omega arith;
      inside = s.inside;
      below = λ i x le g. le_trans_<? (f x) (f y) item (sorted i m x y (omega arith) g e) h;
      above = s.above;
    }

    meet : {low high : ℕ} → low ≡ high → Splits xs item low high → Splits xs item low low
    meet {low} {high} e s = let e' : high ≡ low = omega arith in rw e' at s

    mid_inside :
        {low high : ℕ} → Splits xs item low high → low < high → (low + high) / 2 < length xs
    mid_inside s less = omega arith

    search_loop-Splits :
        (fuel low high : ℕ)
        → high - low < fuel
        → Splits xs item low high
        → (p : ℕ) × (search_loop f xs item fuel low high ≡ ok p) × Splits xs item p p
    unfolding search_loop
    search_loop-Splits zero low high h s = absurd (omega arith)
    search_loop-Splits (suc fuel) low high h s = elim (Bool-cases (ltb low high)) [
      | inr stop ↦ rw stop (low, refl, meet (ground arith) s)
      | inl go ↦
          let less : low < high = ltb→lt low high go in
          let (y, e) = get_elem?-lt xs ((low + high) / 2) (mid_inside s less) in
          elim (Bool-cases (item <? f y)) [
            | inl is_below ↦
                rw (go, e, index, is_below)
                  (search_loop-Splits fuel low ((low + high) / 2) (omega arith) (
                    narrow_high low high ((low + high) / 2) y s (omega arith) (omega arith) e
                      is_below))
            | inr is_above ↦
                rw (go, e, index, is_above)
                  (search_loop-Splits fuel ((low + high) / 2 + 1) high (omega arith)
                    (narrow_low low high ((low + high) / 2) y s (omega arith) e is_above))
          ]
    ]

  last_le_from-split :
      (best : Option A) (xs : List A) (item : B) (p : ℕ)
      → p ≤ length xs
      → ((i : ℕ) (x : A) → i < p → get_elem? xs i ≡ some x → (item <? f x) ≡ false)
      → ((i : ℕ) (x : A) → p ≤ i → get_elem? xs i ≡ some x → (item <? f x) ≡ true)
      → last_le_from best xs item ≡ elim p [ zero ↦ best | suc q ↦ get_elem? xs q ]
  unfolding last_le_from
  last_le_from-split best [] item zero le below above = refl
  last_le_from-split best [] item (suc p) le below above = absurd (omega arith)
  last_le_from-split best (x ∷ xs) item zero le below above = rw (above 0 x (omega arith) refl) (
      last_le_from-split best xs item zero (omega arith) (λ i y lt e. absurd (omega arith))
        (λ i y lt e. above (suc i) y (omega arith) e))
  last_le_from-split best (x ∷ xs) item (suc zero) le below above =
      rw (below 0 x (omega arith) refl) (
        last_le_from-split (some x) xs item zero (omega arith) (λ i y lt e. absurd (omega arith))
          (λ i y lt e. above (suc i) y (omega arith) e))
  last_le_from-split best (x ∷ xs) item (suc (suc p)) le below above =
      rw (below 0 x (omega arith) refl) (
        last_le_from-split (some x) xs item (suc p) (omega arith)
          (λ i y lt e. below (suc i) y (omega arith) e)
          (λ i y lt e. above (suc i) y (omega arith) e))

  pick-split :
      (xs : List A) (item : B) (p : ℕ)
      → p ≤ length xs
      → pick f xs item p ≡ ok (elim p [ zero ↦ none | suc q ↦ get_elem? xs q ])
  unfolding pick
  pick-split xs item zero h = refl
  pick-split xs item (suc q) h =
      let (x, e) = get_elem?-lt xs q (omega arith) in
      rw (lt→ltb q (length xs) (omega arith), e, index)

  -- On a sorted slice the search returns, never panics, and its answer is that of the scan: the
  -- last element whose key is not above the item, or `none` if every key is above it.
  pub binsearch_by_key-eq-last_le :
      (xs : List A) (item : B) → IsSorted xs → binsearch_by_key f xs item ≡ ok (last_le xs item)
  unfolding binsearch_by_key last_le
  binsearch_by_key-eq-last_le xs item sorted =
      let whole : Splits xs item 0 (length xs) = record {
        ordered = omega arith;
        inside = omega arith;
        below = λ i x lt e. absurd (omega arith);
        above = λ i x le e. absurd (omega (arith, lt_of_get_elem? xs i x e));
      } in
      let (p, e, s) =
        search_loop-Splits xs sorted item (suc (length xs)) 0 (length xs) (omega arith) whole in
      rw (
        e,
        pick-split xs item p s.inside,
        last_le_from-split none xs item p s.inside s.below s.above,
      )

  loop_total :
      (xs : List A) (item : B) (fuel low high : ℕ)
      → high - low < fuel
      → low ≤ high
      → high ≤ length xs
      → (p : ℕ) × (search_loop f xs item fuel low high ≡ ok p) × (p ≤ length xs)
  unfolding search_loop
  loop_total xs item zero low high h le fits = absurd (omega arith)
  loop_total xs item (suc fuel) low high h le fits = elim (Bool-cases (ltb low high)) [
    | inr stop ↦ rw stop (low, refl, omega arith)
    | inl go ↦
        let less : low < high = ltb→lt low high go in
        let (y, e) = get_elem?-lt xs ((low + high) / 2) (omega arith) in
        elim (Bool-cases (item <? f y)) [
          | inl b ↦
              rw (go, e, index, b)
                (loop_total xs item fuel low ((low + high) / 2) (omega arith) (omega arith)
                  (omega arith))
          | inr b ↦
              rw (go, e, index, b)
                (loop_total xs item fuel ((low + high) / 2 + 1) high (omega arith) (omega arith)
                  (omega arith))
        ]
  ]

  -- On any slice, sorted or not, the search returns and never reads out of range; what it
  -- returns is nothing or an element of the slice.
  pub binsearch_by_key_total :
      (xs : List A) (item : B)
      → (r : Option A) × (binsearch_by_key f xs item ≡ ok r)
        × ((r ≡ none) ⊎ ((i : ℕ) × (i < length xs) × (get_elem? xs i ≡ r)))
  unfolding binsearch_by_key
  binsearch_by_key_total xs item =
      let (p, e, le) =
        loop_total xs item (suc (length xs)) 0 (length xs) (omega arith) (omega arith)
          (omega arith) in
      found p le e
    where
      found :
          (p : ℕ)
          → p ≤ length xs
          → search_loop f xs item (suc (length xs)) 0 (length xs) ≡ ok p
          → (r : Option A) × (binsearch_by_key f xs item ≡ ok r)
            × ((r ≡ none) ⊎ ((i : ℕ) × (i < length xs) × (get_elem? xs i ≡ r)))
      found zero le e = (none, rw e (pick-split xs item zero le), inl refl)
      found (suc q) le e =
          (get_elem? xs q, rw e (pick-split xs item (suc q) le), inr (q, omega arith, refl))

  -- On a sorted slice an element whose key is the item is found, or one with the same key.
  pub last_le_complete :
      (xs : List A) (item : B) (i : ℕ) (y : A)
      → IsSorted xs
      → get_elem? xs i ≡ some y
      → f y ≡ item
      → (x : A) × (last_le xs item ≡ some x) × (f x ≡ item)
  unfolding last_le
  last_le_complete xs item i y sorted at same =
      let whole : Splits xs item 0 (length xs) = record {
        ordered = omega arith;
        inside = omega arith;
        below = λ i x lt e. absurd (omega arith);
        above = λ i x le e. absurd (omega (arith, lt_of_get_elem? xs i x e));
      } in
      let (p, _, s) =
        search_loop-Splits xs sorted item (suc (length xs)) 0 (length xs) (omega arith) whole in
      at_split p s
    where
      at_split :
          (p : ℕ)
          → Splits xs item p p
          → (x : A) × (last_le_from none xs item ≡ some x) × (f x ≡ item)
      at_split zero s =
          let wrong : (item <? f y) ≡ true = s.above i y (omega arith) at in
          absurd (cc (wrong, same, <?_irrefl item))
      at_split (suc q) s = elim (dec_lt i (suc q)) [
        | no far ↦
            let wrong : (item <? f y) ≡ true = s.above i y (omega arith) at in
            absurd (cc (wrong, same, <?_irrefl item))
        | yes near ↦
            let (x, e) = get_elem?-lt xs q (below_length s) in
            let ge : (f x <? f y) ≡ false = sorted i q y x (omega arith) at e in
            let le : (item <? f x) ≡ false = s.below q x (omega arith) e in
            (
              x,
              last_le_from-split none xs item (suc q) s.inside s.below s.above ∙ e,
              eq_of_not_<? (f x) item (rw same at ge) le,
            )
      ]
        where
          below_length : Splits xs item (suc q) (suc q) → q < length xs
          below_length s = omega arith

  last_le_from-All {ι} :
      (P : A → Type ι) (best : Option A) (xs : List A) (item : B) (x : A)
      → ((b : A) → best ≡ some b → P b)
      → All P xs
      → last_le_from best xs item ≡ some x
      → P x
  unfolding last_le_from
  last_le_from-All P best [] item x h hs e = h x e
  last_le_from-All P best (y ∷ xs) item x h (k, hs) e = elim (Bool-cases (item <? f y)) [
    | inl c ↦ last_le_from-All P best xs item x h hs (rw c at e)
    | inr c ↦
        last_le_from-All P (some y) xs item x (λ b same. rw (← some-injective y b same) k) hs
          (rw c at e)
  ]

  -- What is found is an element.
  pub last_le-All {ι} :
      (P : A → Type ι) (xs : List A) (item : B) (x : A) → All P xs → last_le xs item ≡ some x → P x
  unfolding last_le
  last_le-All P xs item x hs e = last_le_from-All P none xs item x (λ b n. absurd (cc n)) hs e

  -- A check of neighbours, which is enough for `IsSorted`.
  unfoldable pub ascending : List A → Bool
  ascending [] = true
  ascending (x ∷ []) = true
  ascending (x ∷ y ∷ xs) = not (f y <? f x) && ascending (y ∷ xs)

  head_least :
      (x : A) (xs : List A) (j : ℕ) (y : A)
      → ascending (x ∷ xs) ≡ true
      → get_elem? xs j ≡ some y
      → (f y <? f x) ≡ false
  unfolding ascending
  head_least x [] j y h e = cc
  head_least x (z ∷ zs) zero y h e = ground arith
  head_least x (z ∷ zs) (suc j) y h e =
      le_trans_<? (f x) (f z) (f y) (ground arith) (head_least z zs j y (ground arith) e)

  pub ascending-IsSorted : (xs : List A) → ascending xs ≡ true → IsSorted xs
  unfolding ascending
  ascending-IsSorted [] h i j x y le e e' = cc
  ascending-IsSorted (a ∷ xs) h zero zero x y le e e' =
      rw (some-injective y x (sym e' ∙ e)) (<?_irrefl (f x))
  ascending-IsSorted (a ∷ xs) h zero (suc j) x y le e e' =
      rw (← some-injective a x e) (head_least a xs j y h e')
  ascending-IsSorted (a ∷ xs) h (suc i) zero x y le e e' = absurd (omega arith)
  ascending-IsSorted (a ∷ []) h (suc i) (suc j) x y le e e' = cc
  ascending-IsSorted (a ∷ b ∷ xs) h (suc i) (suc j) x y le e e' =
      ascending-IsSorted (b ∷ xs) (ground arith) i j x y (omega arith) e e'
