-- ===== src/Prelude/Order.antt =====
-- Rust's `Ord` as an interface: a comparison with its laws, and the derived instances for
-- lists, options and pairs (each lexicographic, as `#[derive(Ord)]` makes them).
use Prim.Native.Nat.{ℕ, compare, Ordering, lt, eq, gt}
use mathlib.Core.Path.{◌≡◌, refl, sym, ap}
use mathlib.Core.Bool.{Bool, true, false}
use mathlib.Core.Option.{Option, none, some}
use mathlib.Core.List.{List, [], ◌∷◌}
use native.Mathlib.Omega.{arith}

abbrev pub flip : Ordering → Ordering
flip lt = gt
flip eq = eq
flip gt = lt

abbrev pub is_lt : Ordering → Bool
is_lt lt = true
is_lt eq = false
is_lt gt = false

abbrev pub is_eq : Ordering → Bool
is_eq lt = false
is_eq eq = true
is_eq gt = false

-- `Ordering::then`.
abbrev pub and_then : Ordering → Ordering → Ordering
and_then lt p = lt
and_then eq p = p
and_then gt p = gt

pub record Ord {ℓ} (A : Type ℓ) : Type ℓ where
  pub cmp : A → A → Ordering
  pub eq_of_cmp : (a b : A) → cmp a b ≡ eq → a ≡ b
  pub cmp_refl : (a : A) → cmp a a ≡ eq
  pub cmp_flip : (a b : A) → cmp b a ≡ flip (cmp a b)
  pub cmp_trans : (a b c : A) → cmp a b ≡ lt → cmp b c ≡ lt → cmp a c ≡ lt

module _ {ℓ} {A : Type ℓ} ⦃o : Ord A⦄ where
  infix 50 ◌<?◌ ◌=?◌
  abbrev pub ◌<?◌ : A → A → Bool
  a <? b = is_lt (o.cmp a b)

  abbrev pub ◌=?◌ : A → A → Bool
  a =? b = is_eq (o.cmp a b)

  pub eq_of_=? : (a b : A) → (a =? b) ≡ true → a ≡ b
  eq_of_=? a b h = o.eq_of_cmp a b (is_eq_cases (o.cmp a b) h)
    where
      is_eq_cases : (c : Ordering) → is_eq c ≡ true → c ≡ eq
      is_eq_cases c h = ground arith

  pub =?_refl : (a : A) → (a =? a) ≡ true
  =?_refl a = ap is_eq (o.cmp_refl a)

module _ {ℓ} {A : Type ℓ} ⦃o : Ord A⦄ where
  pub lt_of_lt_of_le : (a b c : A) → (a <? b) ≡ true → (c <? b) ≡ false → (a <? c) ≡ true
  lt_of_lt_of_le a b c h k = go (o.cmp a b) (o.cmp b c) refl refl h k
    where
      go :
          (s t : Ordering)
          → o.cmp a b ≡ s
          → o.cmp b c ≡ t
          → is_lt s ≡ true
          → (c <? b) ≡ false
          → (a <? c) ≡ true
      go lt lt e f h k = rw (o.cmp_trans a b c e f)
      go lt eq e f h k = rw (← o.eq_of_cmp b c f, e)
      go lt gt e f h k = cc (o.cmp_flip b c, f)
      go eq t e f h k = cc
      go gt t e f h k = cc

  -- `i ≤ m` and `m ≤ k` give `i ≤ k`.
  pub le_trans_<? : (i m k : A) → (m <? i) ≡ false → (k <? m) ≡ false → (k <? i) ≡ false
  le_trans_<? i m k h h' = go (k <? i) refl
    where
      go : (b : Bool) → (k <? i) ≡ b → b ≡ false
      go false e = refl
      go true e = cc (lt_of_lt_of_le k i m e h)

  pub <?_irrefl : (a : A) → (a <? a) ≡ false
  <?_irrefl a = rw (o.cmp_refl a)

  pub <?_asymm : (a b : A) → (a <? b) ≡ true → (b <? a) ≡ false
  <?_asymm a b h = rw (o.cmp_flip a b) (go (o.cmp a b) h)
    where
      go : (c : Ordering) → is_lt c ≡ true → is_lt (flip c) ≡ false
      go lt h = refl
      go eq h = refl
      go gt h = cc

  -- Neither is below the other only if they are equal.
  pub eq_of_not_<? : (a b : A) → (a <? b) ≡ false → (b <? a) ≡ false → a ≡ b
  eq_of_not_<? a b h k = go (o.cmp a b) refl h
    where
      go : (c : Ordering) → o.cmp a b ≡ c → is_lt c ≡ false → a ≡ b
      go lt e h = cc
      go eq e h = o.eq_of_cmp a b e
      go gt e h = cc (o.cmp_flip a b, e, k)

pub nat-eq_of_cmp : (a b : ℕ) → compare a b ≡ eq → a ≡ b
nat-eq_of_cmp a b h = ground arith

pub nat-cmp_refl : (a : ℕ) → compare a a ≡ eq
nat-cmp_refl a = ground arith

pub nat-cmp_flip : (a b : ℕ) → compare b a ≡ flip (compare a b)
nat-cmp_flip a b = ground arith

pub nat-cmp_trans : (a b c : ℕ) → compare a b ≡ lt → compare b c ≡ lt → compare a c ≡ lt
nat-cmp_trans a b c h k = ground arith

instance abbrev pub nat_ord : Ord ℕ
nat_ord = record {
  cmp = compare;
  eq_of_cmp = nat-eq_of_cmp;
  cmp_refl = nat-cmp_refl;
  cmp_flip = nat-cmp_flip;
  cmp_trans = nat-cmp_trans;
}

flip-and_then : (c d : Ordering) → flip (and_then c d) ≡ and_then (flip c) (flip d)
flip-and_then lt d = refl
flip-and_then eq d = refl
flip-and_then gt d = refl

-- A lexicographic pair of comparisons, with the tail's transitivity handed in.
module _ {ℓ} {A : Type ℓ} ⦃o : Ord A⦄ where
  lex_trans :
      (a b c : A) (p q r : Ordering)
      → (p ≡ lt → q ≡ lt → r ≡ lt)
      → and_then (o.cmp a b) p ≡ lt
      → and_then (o.cmp b c) q ≡ lt
      → and_then (o.cmp a c) r ≡ lt
  lex_trans a b c p q r tail h k = go (o.cmp a b) (o.cmp b c) refl refl h k
    where
      go :
          (x y : Ordering)
          → o.cmp a b ≡ x
          → o.cmp b c ≡ y
          → and_then x p ≡ lt
          → and_then y q ≡ lt
          → and_then (o.cmp a c) r ≡ lt
      go lt lt e f h k = rw (o.cmp_trans a b c e f)
      go lt eq e f h k = rw (← o.eq_of_cmp b c f, e)
      go eq lt e f h k = rw (o.eq_of_cmp a b e, f)
      go eq eq e f h k = rw (o.eq_of_cmp a b e, f) (tail h k)
      go gt y e f h k = cc
      go lt gt e f h k = cc
      go eq gt e f h k = cc

module _ {ℓ κ} {A : Type ℓ} {B : Type κ} ⦃o : Ord A⦄ ⦃u : Ord B⦄ where
  abbrev pub pair_cmp : A × B → A × B → Ordering
  pair_cmp (a, b) (c, d) = and_then (o.cmp a c) (u.cmp b d)

  pub pair-eq_of_cmp : (x y : A × B) → pair_cmp x y ≡ eq → x ≡ y
  pair-eq_of_cmp (a, b) (c, d) h = go (o.cmp a c) (u.cmp b d) refl refl h
    where
      go :
          (s t : Ordering)
          → o.cmp a c ≡ s
          → u.cmp b d ≡ t
          → and_then s t ≡ eq
          → ◌≡◌ {A = A × B} (a, b) (c, d)
      go eq eq e f h = λ i. (o.eq_of_cmp a c e i, u.eq_of_cmp b d f i)
      go lt t e f h = cc
      go gt t e f h = cc
      go eq lt e f h = cc
      go eq gt e f h = cc

  pub pair-cmp_refl : (x : A × B) → pair_cmp x x ≡ eq
  pair-cmp_refl (a, b) = rw (o.cmp_refl a) (u.cmp_refl b)

  pub pair-cmp_flip : (x y : A × B) → pair_cmp y x ≡ flip (pair_cmp x y)
  pair-cmp_flip (a, b) (c, d) =
      rw (o.cmp_flip a c, u.cmp_flip b d) (sym (flip-and_then (o.cmp a c) (u.cmp b d)))

  pub pair-cmp_trans : (x y z : A × B) → pair_cmp x y ≡ lt → pair_cmp y z ≡ lt → pair_cmp x z ≡ lt
  pair-cmp_trans (a, b) (c, d) (e, f) h k =
      lex_trans a c e (u.cmp b d) (u.cmp d f) (u.cmp b f) (u.cmp_trans b d f) h k

  instance abbrev pub pair_ord : Ord (A × B)
  pair_ord = record {
    cmp = pair_cmp;
    eq_of_cmp = pair-eq_of_cmp;
    cmp_refl = pair-cmp_refl;
    cmp_flip = pair-cmp_flip;
    cmp_trans = pair-cmp_trans;
  }

module _ {ℓ} {A : Type ℓ} ⦃o : Ord A⦄ where
  abbrev pub list_cmp : List A → List A → Ordering
  list_cmp [] [] = eq
  list_cmp [] (y ∷ ys) = lt
  list_cmp (x ∷ xs) [] = gt
  list_cmp (x ∷ xs) (y ∷ ys) = and_then (o.cmp x y) (list_cmp xs ys)

  pub list-eq_of_cmp : (xs ys : List A) → list_cmp xs ys ≡ eq → xs ≡ ys
  list-eq_of_cmp [] [] h = refl
  list-eq_of_cmp [] (y ∷ ys) h = cc
  list-eq_of_cmp (x ∷ xs) [] h = cc
  list-eq_of_cmp (x ∷ xs) (y ∷ ys) h =
      go (o.cmp x y) (list_cmp xs ys) refl refl (list-eq_of_cmp xs ys) h
    where
      go :
          (s t : Ordering)
          → o.cmp x y ≡ s
          → list_cmp xs ys ≡ t
          → (list_cmp xs ys ≡ eq → xs ≡ ys)
          → and_then s t ≡ eq
          → (x ∷ xs) ≡ (y ∷ ys)
      go eq eq e f tail h = λ i. o.eq_of_cmp x y e i ∷ tail f i
      go lt t e f tail h = cc
      go gt t e f tail h = cc
      go eq lt e f tail h = cc
      go eq gt e f tail h = cc

  pub list-cmp_refl : (xs : List A) → list_cmp xs xs ≡ eq
  list-cmp_refl [] = refl
  list-cmp_refl (x ∷ xs) = rw (o.cmp_refl x) (list-cmp_refl xs)

  pub list-cmp_flip : (xs ys : List A) → list_cmp ys xs ≡ flip (list_cmp xs ys)
  list-cmp_flip [] [] = refl
  list-cmp_flip [] (y ∷ ys) = refl
  list-cmp_flip (x ∷ xs) [] = refl
  list-cmp_flip (x ∷ xs) (y ∷ ys) =
      rw (o.cmp_flip x y, list-cmp_flip xs ys) (sym (flip-and_then (o.cmp x y) (list_cmp xs ys)))

  pub list-cmp_trans :
      (xs ys zs : List A) → list_cmp xs ys ≡ lt → list_cmp ys zs ≡ lt → list_cmp xs zs ≡ lt
  list-cmp_trans [] [] zs h k = k
  list-cmp_trans [] (y ∷ ys) [] h k = cc
  list-cmp_trans [] (y ∷ ys) (z ∷ zs) h k = refl
  list-cmp_trans (x ∷ xs) [] zs h k = cc
  list-cmp_trans (x ∷ xs) (y ∷ ys) [] h k = cc
  list-cmp_trans (x ∷ xs) (y ∷ ys) (z ∷ zs) h k =
      lex_trans x y z (list_cmp xs ys) (list_cmp ys zs) (list_cmp xs zs) (list-cmp_trans xs ys zs) h
        k

  instance abbrev pub list_ord : Ord (List A)
  list_ord = record {
    cmp = list_cmp;
    eq_of_cmp = list-eq_of_cmp;
    cmp_refl = list-cmp_refl;
    cmp_flip = list-cmp_flip;
    cmp_trans = list-cmp_trans;
  }

  abbrev pub option_cmp : Option A → Option A → Ordering
  option_cmp none none = eq
  option_cmp none (some b) = lt
  option_cmp (some a) none = gt
  option_cmp (some a) (some b) = o.cmp a b

  pub option-eq_of_cmp : (x y : Option A) → option_cmp x y ≡ eq → x ≡ y
  option-eq_of_cmp none none h = refl
  option-eq_of_cmp none (some b) h = cc
  option-eq_of_cmp (some a) none h = cc
  option-eq_of_cmp (some a) (some b) h = ap some (o.eq_of_cmp a b h)

  pub option-cmp_refl : (x : Option A) → option_cmp x x ≡ eq
  option-cmp_refl none = refl
  option-cmp_refl (some a) = o.cmp_refl a

  pub option-cmp_flip : (x y : Option A) → option_cmp y x ≡ flip (option_cmp x y)
  option-cmp_flip none none = refl
  option-cmp_flip none (some b) = refl
  option-cmp_flip (some a) none = refl
  option-cmp_flip (some a) (some b) = o.cmp_flip a b

  pub option-cmp_trans :
      (x y z : Option A) → option_cmp x y ≡ lt → option_cmp y z ≡ lt → option_cmp x z ≡ lt
  option-cmp_trans none none z h k = cc
  option-cmp_trans none (some b) none h k = cc
  option-cmp_trans none (some b) (some c) h k = refl
  option-cmp_trans (some a) none z h k = cc
  option-cmp_trans (some a) (some b) none h k = cc
  option-cmp_trans (some a) (some b) (some c) h k = o.cmp_trans a b c h k

  instance abbrev pub option_ord : Ord (Option A)
  option_ord = record {
    cmp = option_cmp;
    eq_of_cmp = option-eq_of_cmp;
    cmp_refl = option-cmp_refl;
    cmp_flip = option-cmp_flip;
    cmp_trans = option-cmp_trans;
  }
