-- ===== src/Prelude/Map.antt =====
-- A Rust `HashMap` as an association list: the order of the list stands for the order in which
-- the table happens to be walked. A set is a list, from which `remove` takes every copy.
use symbolserver.Prelude.Tests.{if◌then◌else◌, Bool-cases}
use symbolserver.Prelude.Order.{Ord, ◌=?◌, eq_of_=?, =?_refl}
use mathlib.Core.Path.{◌≡◌, refl, sym, ◌∙◌}
use mathlib.Core.Logic.{inl, inr}
use mathlib.Core.Bool.{Bool, true, false}
use mathlib.Core.Option.{Option, none, some}
use mathlib.Core.List.{List, [], ◌∷◌}
use native.Mathlib.Omega.{arith}

abbrev pub Map {ℓ κ} : Type ℓ → Type κ → Type (ℓ ⊔ κ)
Map K V = List (K × V)

abbrev pub is_some {ℓ} : {A : Type ℓ} → Option A → Bool
is_some none = false
is_some (some a) = true

abbrev pub values {ℓ κ} : {K : Type ℓ} {V : Type κ} → Map K V → List V
values [] = []
values ((k, v) ∷ m) = v ∷ values m

-- `==` does not depend on the order of its sides.
pub =?_sym {ℓ} : {A : Type ℓ} ⦃o : Ord A⦄ (a b : A) → (a =? b) ≡ (b =? a)
=?_sym a b = elim (Bool-cases (a =? b)) [
  | inl e ↦ rw (eq_of_=? a b e)
  | inr e ↦ elim (Bool-cases (b =? a)) [
    | inr e' ↦ e ∙ sym e'
    | inl e' ↦
        let same : (a =? b) ≡ true = rw (eq_of_=? b a e') (=?_refl a) in absurd (cc (e, same))
  ]
]

module _ {ℓ κ} {K : Type ℓ} {V : Type κ} ⦃o : Ord K⦄ where
  unfoldable pub get : K → Map K V → Option V
  get k [] = none
  get k ((j, v) ∷ m) = if j =? k then some v else get k m

  unfoldable pub insert : K → V → Map K V → Map K V
  insert k v [] = (k, v) ∷ []
  insert k v ((j, w) ∷ m) = if j =? k then (k, v) ∷ m else (j, w) ∷ insert k v m

  unfoldable pub remove : K → Map K V → Map K V
  remove k [] = []
  remove k ((j, w) ∷ m) = let rest = remove k m in if j =? k then rest else (j, w) ∷ rest

  abbrev pub NodupKeys : Map K V → Type κ
  NodupKeys [] = Unit
  NodupKeys ((k, v) ∷ m) = (get k m ≡ none) × NodupKeys m

  pub get-insert :
      (j k : K) (v : V) (m : Map K V) → get j (insert k v m) ≡ (if k =? j then some v else get j m)
  unfolding get insert
  get-insert j k v [] = refl
  get-insert j k v ((i, w) ∷ m) = elim (Bool-cases (i =? k)) [
    | inl e ↦ rw (e, eq_of_=? i k e) (ground arith)
    | inr e ↦ rw e (elim (Bool-cases (i =? j)) [
      | inr d ↦ rw d (get-insert j k v m)
      | inl d ↦ let other : (k =? j) ≡ false = rw (← eq_of_=? i j d, =?_sym k i) e in rw (d, other)
    ])
  ]

  pub get-remove : (j k : K) (m : Map K V) → get j (remove k m) ≡ (if k =? j then none else get j m)
  unfolding get remove
  get-remove j k [] = ground arith
  get-remove j k ((i, w) ∷ m) = elim (Bool-cases (i =? k)) [
    | inl e ↦ rw (e, get-remove j k m, eq_of_=? i k e) (ground arith)
    | inr e ↦
        rw (e, get-remove j k m)
          (elim (Bool-cases (i =? j)) [
            | inr d ↦ rw d
            | inl d ↦
                let other : (k =? j) ≡ false = rw (← eq_of_=? i j d, =?_sym k i) e in rw (d, other)
          ])
  ]

  pub insert-NodupKeys : (k : K) (v : V) (m : Map K V) → NodupKeys m → NodupKeys (insert k v m)
  unfolding insert
  insert-NodupKeys k v [] h = (unfold get in refl, tt)
  insert-NodupKeys k v ((j, w) ∷ m) (fresh, h) = elim (Bool-cases (j =? k)) [
    | inl e ↦ rw (e, ← eq_of_=? j k e) (fresh, h)
    | inr e ↦ rw e (get-insert j k v m ∙ rw (=?_sym k j, e) fresh, insert-NodupKeys k v m h)
  ]

  pub remove-NodupKeys : (k : K) (m : Map K V) → NodupKeys m → NodupKeys (remove k m)
  unfolding remove
  remove-NodupKeys k [] h = tt
  remove-NodupKeys k ((j, w) ∷ m) (fresh, h) = elim (Bool-cases (j =? k)) [
    | inl e ↦ rw e (remove-NodupKeys k m h)
    | inr e ↦ rw e (get-remove j k m ∙ rw (=?_sym k j, e) fresh, remove-NodupKeys k m h)
  ]
