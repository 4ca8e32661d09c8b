-- ===== src/Prelude/Sort.antt =====
-- Rust's stable sort, as insertion sort: `sort` and `sort_by` differ in the comparison only.
use Prim.Native.Nat.{ℕ, ◌≤◌, Ordering, lt, eq, gt, ◌+◌}
use symbolserver.Prelude.Tests.{Bool-cases}
use symbolserver.Prelude.Lists.{any, All, length}
use mathlib.Core.Path.{◌≡◌, refl, ap, ◌∙◌}
use mathlib.Core.Logic.{◌⊎◌, inl, inr}
use mathlib.Core.Option.{Option, none, some}
use mathlib.Core.Bool.{Bool, true, false, ◌||◌}
use mathlib.Core.List.{List, [], ◌∷◌, Perm}
use mathlib.Core.List.Perm
use native.Mathlib.Omega.{arith}

module _ {ℓ} {A : Type ℓ} (cmp : A → A → Ordering) where
  -- An element goes before those that are greater or equal: it came first.
  unfoldable pub insert_sorted : A → List A → List A
  insert_sorted x [] = x ∷ []
  insert_sorted x (y ∷ ys) =
      let later = insert_sorted x ys in elim (cmp x y) [ gt ↦ y ∷ later | _ ↦ x ∷ y ∷ ys ]

  unfoldable pub sort_by : List A → List A
  unfolding insert_sorted
  sort_by [] = []
  sort_by (x ∷ xs) = insert_sorted x (sort_by xs)

  any-insert_sorted :
      (p : A → Bool) (x : A) (xs : List A) → any p (insert_sorted x xs) ≡ (p x || any p xs)
  unfolding insert_sorted
  any-insert_sorted p x [] = refl
  any-insert_sorted p x (y ∷ ys) = ground (arith, any-insert_sorted p x ys)

  -- Sorting keeps the elements: a test holds of one of them before if and only if after.
  pub any-sort_by : (p : A → Bool) (xs : List A) → any p (sort_by xs) ≡ any p xs
  unfolding sort_by
  any-sort_by p [] = refl
  any-sort_by p (x ∷ xs) =
      any-insert_sorted p x (sort_by xs) ∙ ap (λ b. p x || b) (any-sort_by p xs)

  length-insert_sorted : (x : A) (xs : List A) → length (insert_sorted x xs) ≡ length xs + 1
  unfolding insert_sorted
  length-insert_sorted x [] = omega arith
  length-insert_sorted x (y ∷ ys) = ground (arith, length-insert_sorted x ys)

  pub length-sort_by : (xs : List A) → length (sort_by xs) ≡ length xs
  unfolding sort_by
  length-sort_by [] = refl
  length-sort_by (x ∷ xs) = omega (arith, length-insert_sorted x (sort_by xs), length-sort_by xs)

  -- Everything that holds of the elements holds of the sorted ones.
  pub sort_by-All {κ} : (P : A → Type κ) (xs : List A) → All P xs → All P (sort_by xs)
  unfolding sort_by
  sort_by-All P [] h = tt
  sort_by-All P (x ∷ xs) (h, hs) = go (sort_by xs) (sort_by-All P xs hs)
    where
      go : (ys : List A) → All P ys → All P (insert_sorted x ys)
      go [] k = (h, tt)
      go (y ∷ ys) (k, ks) = pick (cmp x y) (go ys ks)
        where
          pick :
              (c : Ordering)
              → All P (insert_sorted x ys)
              → All P (elim c [ gt ↦ y ∷ insert_sorted x ys | _ ↦ x ∷ y ∷ ys ])
          pick gt r = (k, r)
          pick lt r = (h, (k, ks))
          pick eq r = (h, (k, ks))

  insert_sorted-Perm : (x : A) (xs : List A) → Perm (insert_sorted x xs) (x ∷ xs)
  unfolding insert_sorted
  insert_sorted-Perm x [] = Perm.rfl
  insert_sorted-Perm x (y ∷ ys) = go (cmp x y) (insert_sorted-Perm x ys)
    where
      go :
          (c : Ordering)
          → Perm (insert_sorted x ys) (x ∷ ys)
          → Perm (elim c [ gt ↦ y ∷ insert_sorted x ys | _ ↦ x ∷ y ∷ ys ]) (x ∷ y ∷ ys)
      go gt ih = Perm.trans (Perm.cons y ih) (Perm.swap x y ys)
      go lt ih = Perm.rfl
      go eq ih = Perm.rfl

  -- Sorting rearranges the elements.
  pub sort_by-Perm : (xs : List A) → Perm (sort_by xs) xs
  unfolding sort_by
  sort_by-Perm [] = Perm.rfl
  sort_by-Perm (x ∷ xs) =
      Perm.trans (insert_sorted-Perm x (sort_by xs)) (Perm.cons x (sort_by-Perm xs))

-- Every element is at most as far as those behind it.
abbrev pub IsAscending {ℓ} : {A : Type ℓ} → (A → ℕ) → List A → Type 0
IsAscending key [] = Unit
IsAscending key (x ∷ xs) = All (λ y. key x ≤ key y) xs × IsAscending key xs

-- A comparison that looks at a number first sorts by this number.
module _ {ℓ} {A : Type ℓ} (cmp : A → A → Ordering) (key : A → ℕ)
    (not_after : (x y : A) → (cmp x y ≡ gt) ⊎ (key x ≤ key y))
    (after : (x y : A) → cmp x y ≡ gt → key y ≤ key x) where
  below_all :
      (x y : A) (ys : List A)
      → key x ≤ key y
      → All (λ z. key y ≤ key z) ys
      → All (λ z. key x ≤ key z) ys
  below_all x y [] le h = tt
  below_all x y (z ∷ ys) le (h, hs) = (omega arith, below_all x y ys le hs)

  insert_sorted-All :
      (n : ℕ) (x : A) (ys : List A)
      → n ≤ key x
      → All (λ z. n ≤ key z) ys
      → All (λ z. n ≤ key z) (insert_sorted cmp x ys)
  unfolding insert_sorted
  insert_sorted-All n x [] le h = (le, tt)
  insert_sorted-All n x (y ∷ ys) le (h, hs) = go (cmp x y) (insert_sorted-All n x ys le hs)
    where
      go :
          (c : Ordering)
          → All (λ z. n ≤ key z) (insert_sorted cmp x ys)
          → All (λ z. n ≤ key z) (elim c [ gt ↦ y ∷ insert_sorted cmp x ys | _ ↦ x ∷ y ∷ ys ])
      go gt ih = (h, ih)
      go lt ih = (le, (h, hs))
      go eq ih = (le, (h, hs))

  insert_sorted-IsAscending :
      (x : A) (ys : List A) → IsAscending key ys → IsAscending key (insert_sorted cmp x ys)
  unfolding insert_sorted
  insert_sorted-IsAscending x [] h = (tt, tt)
  insert_sorted-IsAscending x (y ∷ ys) (below, h) =
      go (cmp x y) (not_after x y) (after x y) (insert_sorted-IsAscending x ys h)
    where
      go :
          (c : Ordering)
          → (c ≡ gt) ⊎ (key x ≤ key y)
          → (c ≡ gt → key y ≤ key x)
          → IsAscending key (insert_sorted cmp x ys)
          → IsAscending key (elim c [ gt ↦ y ∷ insert_sorted cmp x ys | _ ↦ x ∷ y ∷ ys ])
      go gt n a ih = (insert_sorted-All (key y) x ys (a refl) below, ih)
      go lt (inl e) a ih = absurd (cc e)
      go lt (inr le) a ih = ((le, below_all x y ys le below), (below, h))
      go eq (inl e) a ih = absurd (cc e)
      go eq (inr le) a ih = ((le, below_all x y ys le below), (below, h))

  pub sort_by-IsAscending : (xs : List A) → IsAscending key (sort_by cmp xs)
  unfolding sort_by
  sort_by-IsAscending [] = tt
  sort_by-IsAscending (x ∷ xs) =
      insert_sorted-IsAscending x (sort_by cmp xs) (sort_by-IsAscending xs)

abbrev pub first {ℓ} : {A : Type ℓ} → List A → Option A
first [] = none
first (x ∷ _) = some x

-- An element that is below all others comes first.
module _ {ℓ} {A : Type ℓ} (cmp : A → A → Ordering) (w : A) (is_w : A → Bool)
    (same : (x : A) → is_w x ≡ true → x ≡ w) (least : (x : A) → (cmp w x ≡ lt) ⊎ (cmp w x ≡ eq))
    (above : (x : A) → is_w x ≡ false → cmp x w ≡ gt) where
  first-insert_least : (ys : List A) → first (insert_sorted cmp w ys) ≡ some w
  unfolding insert_sorted
  first-insert_least [] = refl
  first-insert_least (y ∷ ys) = elim (least y) [
    | inl e ↦ rw (e, first, insert_sorted)
    | inr e ↦ rw (e, first, insert_sorted)
  ]

  first-insert_above :
      (x : A) (ys : List A)
      → is_w x ≡ false
      → first ys ≡ some w
      → first (insert_sorted cmp x ys) ≡ some w
  unfolding insert_sorted
  first-insert_above x [] h e = cc
  first-insert_above x (y ∷ ys) h e =
      let here : y ≡ w = cc e in
      let over : cmp x y ≡ gt = rw here (above x h) in rw (over, first, insert_sorted, here)

  pub first-sort_by : (xs : List A) → any is_w xs ≡ true → first (sort_by cmp xs) ≡ some w
  unfolding sort_by
  first-sort_by [] h = cc
  first-sort_by (x ∷ xs) h = elim (Bool-cases (is_w x)) [
    | inl e ↦ rw (same x e) (first-insert_least (sort_by cmp xs))
    | inr e ↦ first-insert_above x (sort_by cmp xs) e (first-sort_by xs (ground (arith, h, e)))
  ]
