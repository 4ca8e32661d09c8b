-- ===== src/Utils/BinSearch/Sorting.antt =====
-- What Rust's sort makes of a slice is sorted for the binary search.
use Prim.Native.Nat.{Ordering, lt, eq, gt}
use symbolserver.Prelude.{
  ◌≡◌, refl, ap, ◌∙◌, Bool, true, false, not, ◌&&◌, List, [], ◌∷◌, arith, sym, ◌⊎◌, inl, inr,
}
use symbolserver.Prelude.Order.{Ord, ◌<?◌, is_lt}
use symbolserver.Prelude.Sort.{insert_sorted, sort_by}
use symbolserver.Utils.BinSearch.Laws.{IsSorted, ascending, ascending-IsSorted}

Ordering-cases : (c : Ordering) → (c ≡ gt) ⊎ ((c ≡ lt) ⊎ (c ≡ eq))
Ordering-cases gt = inl refl
Ordering-cases lt = inr (inl refl)
Ordering-cases eq = inr (inr refl)

and-true : (a b : Bool) → (a && b) ≡ true → (a ≡ true) × (b ≡ true)
and-true a b h = ground arith

module _ {ℓ κ} {A : Type ℓ} {B : Type κ} ⦃o : Ord B⦄ (f : A → B) where
  abbrev by_key : A → A → Ordering
  by_key a b = o.cmp (f a) (f b)

  -- The head of what an element is inserted in.
  abbrev not_below : A → List A → Bool
  not_below a [] = true
  not_below a (x ∷ xs) = not (f x <? f a)

  head_lem : (a : A) (xs : List A) → ascending f (a ∷ xs) ≡ (not_below a xs && ascending f xs)
  unfolding ascending
  head_lem a [] = refl
  head_lem a (x ∷ xs) = refl

  not_below-insert :
      (a x : A) (ys : List A)
      → (f x <? f a) ≡ false
      → not_below a ys ≡ true
      → not_below a (insert_sorted by_key x ys) ≡ true
  unfolding insert_sorted
  not_below-insert a x [] h k = rw h refl
  not_below-insert a x (y ∷ ys) h k = elim (Ordering-cases (o.cmp (f x) (f y))) [
    | inl e ↦ rw (e, not_below, insert_sorted) k
    | inr (inl e) ↦ rw (e, not_below, insert_sorted, h) refl
    | inr (inr e) ↦ rw (e, not_below, insert_sorted, h) refl
  ]

  insert-ascending :
      (x : A) (ys : List A) → ascending f ys ≡ true → ascending f (insert_sorted by_key x ys) ≡ true
  unfolding insert_sorted ascending
  insert-ascending x [] h = refl
  insert-ascending x (y ∷ ys) h =
      let (head, rest) = and-true (not_below y ys) (ascending f ys) (sym (head_lem y ys) ∙ h) in
      let flipped = o.cmp_flip (f x) (f y) in
      elim (Ordering-cases (o.cmp (f x) (f y))) [
        | inl e ↦
            let le : (f x <? f y) ≡ false = ap is_lt e in
            rw (e, ascending, insert_sorted)
              (head_lem y (insert_sorted by_key x ys)
                ∙ rw (not_below-insert y x ys le head, insert-ascending x ys rest) refl)
        | inr (inl e) ↦
            let le : (f y <? f x) ≡ false = ap is_lt flipped ∙ rw e refl in
            rw (e, ascending, insert_sorted, le) h
        | inr (inr e) ↦
            let le : (f y <? f x) ≡ false = ap is_lt flipped ∙ rw e refl in
            rw (e, ascending, insert_sorted, le) h
      ]

  sort_by-ascending : (xs : List A) → ascending f (sort_by by_key xs) ≡ true
  unfolding sort_by ascending
  sort_by-ascending [] = refl
  sort_by-ascending (x ∷ xs) = insert-ascending x (sort_by by_key xs) (sort_by-ascending xs)

  pub sort_by-IsSorted : (xs : List A) → IsSorted f (sort_by (λ a b. o.cmp (f a) (f b)) xs)
  sort_by-IsSorted xs = ascending-IsSorted f (sort_by by_key xs) (sort_by-ascending xs)
