-- ===== src/Text/Radix.antt =====
-- Printing a number and parsing it back.
use native.Mathlib.Nat.{div-add-mod', div-lt_self, mod-lt}
use symbolserver.Prelude.{ℕ, zero, suc, ◌+◌, ◌*◌, ◌/◌, ◌%◌, ◌≤◌, ◌<◌}
use symbolserver.Prelude.{◌≡◌, refl, ◌∙◌, false}
use symbolserver.Prelude.{Option, some, [], ◌∷◌, ◌++◌, ltb, ltb→lt, lt→ltb}
use symbolserver.Prelude.{◌==◌, arith}
use symbolserver.Prelude.{Bool-cases, Option-cases, inl, inr, none}
use symbolserver.Prelude.{All, length, length-append}
use symbolserver.Errors.{Str}
use symbolserver.Text.{from_digit, to_digit, digits_of, to_radix, push_digit, read_digits}
use symbolserver.Text.{read_nonempty, from_str_radix}

to_digit-from_digit :
    (radix d : ℕ) → d < radix → radix ≤ 36 → to_digit radix (from_digit d) ≡ some d
unfolding to_digit from_digit
to_digit-from_digit radix d h k = ground arith

from_digit-ne_plus : (d : ℕ) → d < 36 → (from_digit d == b'+') ≡ false
unfolding from_digit
from_digit-ne_plus d h = ground arith

read_digits-append :
    (radix limit : ℕ) (acc : Option ℕ) (s t : Str)
    → read_digits radix limit acc (s ++ t)
      ≡ read_digits radix limit (read_digits radix limit acc s) t
unfolding read_digits
read_digits-append radix limit acc [] t = refl
read_digits-append radix limit acc (c ∷ s) t =
    read_digits-append radix limit (push_digit radix limit acc c) s t

-- The first digit of a number is a digit, so no sign is read.
abbrev StartsWithDigit : ℕ → Str → Type 0
StartsWithDigit radix [] = ⊥
StartsWithDigit radix (c ∷ s) = (d : ℕ) × (d < radix) × (c ≡ from_digit d)

StartsWithDigit-append :
    (radix : ℕ) (s t : Str) → StartsWithDigit radix s → StartsWithDigit radix (s ++ t)
StartsWithDigit-append radix [] t h = absurd h
StartsWithDigit-append radix (c ∷ s) t h = h

module _ (radix : ℕ) (two : 2 ≤ radix) where
  digits_of-StartsWithDigit :
      (fuel n : ℕ) → n < fuel → StartsWithDigit radix (digits_of radix fuel n)
  unfolding digits_of
  digits_of-StartsWithDigit zero n h = absurd (omega arith)
  digits_of-StartsWithDigit (suc fuel) n h = elim (Bool-cases (ltb n radix)) [
    | inl one ↦ rw one (n, ltb→lt _ _ one, refl)
    | inr many ↦ rw many (
        let k : n / radix < n = div-lt_self (ground arith) two in
        StartsWithDigit-append radix (digits_of radix fuel (n / radix)) _
          (digits_of-StartsWithDigit fuel (n / radix) (omega arith)))
  ]

module _ (radix limit : ℕ) (two : 2 ≤ radix) (small : radix ≤ 36) where
  push_digit-from_digit :
      (acc d n : ℕ)
      → d < radix
      → acc * radix + d ≡ n
      → n < limit
      → push_digit radix limit (some acc) (from_digit d) ≡ some n
  unfolding push_digit
  push_digit-from_digit acc d n h e k =
      rw (to_digit-from_digit radix d h small, push_digit, e, lt→ltb n limit k)

  read_digits-digits_of :
      (fuel n : ℕ)
      → n < fuel
      → n < limit
      → read_digits radix limit (some 0) (digits_of radix fuel n) ≡ some n
  unfolding digits_of read_digits
  read_digits-digits_of zero n h k = absurd (omega arith)
  read_digits-digits_of (suc fuel) n h k = elim (Bool-cases (ltb n radix)) [
    | inl one ↦ rw one (push_digit-from_digit 0 n n (ltb→lt _ _ one) (omega arith) k)
    | inr many ↦ rw many (
        let less : n / radix < n = div-lt_self (ground arith) two in
        read_digits-append radix limit (some 0) (digits_of radix fuel (n / radix)) _
        ∙ rw (read_digits-digits_of fuel (n / radix) (omega arith) (omega arith)) (
            push_digit-from_digit (n / radix) (n % radix) n (mod-lt n (omega arith))
              (div-add-mod' n radix) k))
  ]

  -- What `{}` or `{:x}` prints, `from_str_radix` reads back, at every type that holds the number.
  pub from_str_radix-to_radix :
      (n : ℕ) → n < limit → from_str_radix radix limit (to_radix radix n) ≡ some n
  unfolding to_radix
  from_str_radix-to_radix n h =
      plain (digits_of radix (suc n) n)
        (digits_of-StartsWithDigit radix two (suc n) n (omega arith))
        (read_digits-digits_of (suc n) n (omega arith) h)
    where
      plain :
          (s : Str)
          → StartsWithDigit radix s
          → read_digits radix limit (some 0) s ≡ some n
          → from_str_radix radix limit s ≡ some n
      plain [] h e = absurd h
      plain (c ∷ s) (d, k, e) q =
          let plus : (c == b'+') ≡ false = rw e (from_digit-ne_plus d (omega arith)) in
          unfold from_str_radix read_nonempty in rw plus q

-- A character that `char::from_digit` makes.
abbrev pub IsDigit : ℕ → ℕ → Type 0
IsDigit radix c = (d : ℕ) × (d < radix) × (c ≡ from_digit d)

All-append :
    (radix : ℕ) (s t : Str)
    → All (IsDigit radix) s
    → All (IsDigit radix) t
    → All (IsDigit radix) (s ++ t)
All-append radix [] t h k = k
All-append radix (c ∷ s) t (h, hs) k = (h, All-append radix s t hs k)

module _ (radix : ℕ) (two : 2 ≤ radix) where
  digits_of-IsDigit : (fuel n : ℕ) → All (IsDigit radix) (digits_of radix fuel n)
  unfolding digits_of
  digits_of-IsDigit zero n = tt
  digits_of-IsDigit (suc fuel) n = elim (Bool-cases (ltb n radix)) [
    | inl one ↦ rw one ((n, ltb→lt _ _ one, refl), tt)
    | inr many ↦ rw many (
        All-append radix (digits_of radix fuel (n / radix)) _ (digits_of-IsDigit fuel (n / radix))
          ((n % radix, mod-lt n (omega arith), refl), tt))
  ]

  pub to_radix-IsDigit : (n : ℕ) → All (IsDigit radix) (to_radix radix n)
  unfolding to_radix
  to_radix-IsDigit n = digits_of-IsDigit (suc n) n

  length-digits_of : (fuel n : ℕ) → n < fuel → 1 ≤ length (digits_of radix fuel n)
  unfolding digits_of
  length-digits_of zero n h = absurd (omega arith)
  length-digits_of (suc fuel) n h = elim (Bool-cases (ltb n radix)) [
    | inl one ↦ rw one (omega arith)
    | inr many ↦ rw (many, length-append {0}) (omega arith)
  ]

  pub length-to_radix_pos : (n : ℕ) → 1 ≤ length (to_radix radix n)
  unfolding to_radix
  length-to_radix_pos n = length-digits_of (suc n) n (omega arith)

  -- A number below the radix has one digit; any other has two or more.
  pub length-to_radix :
      (n : ℕ)
      → (n < radix → to_radix radix n ≡ from_digit n ∷ [])
        × (radix ≤ n → 2 ≤ length (to_radix radix n))
  unfolding to_radix digits_of
  length-to_radix n = (λ h. rw (lt→ltb n radix h), λ h. more h)
    where
      more : radix ≤ n → 2 ≤ length (digits_of radix (suc n) n)
      more h =
          let many : ltb n radix ≡ false = ground arith in
          let less : n / radix < n = div-lt_self (omega arith) two in
          rw (many, length-append {0}) (omega (arith, length-digits_of n (n / radix) less))

-- A number below a limit, if there is one.
abbrev Fits : ℕ → Option ℕ → Type 0
Fits limit none = Unit
Fits limit (some n) = n < limit

module _ (radix limit : ℕ) (positive : 0 < limit) where
  push_digit-Fits : (acc : Option ℕ) (c : ℕ) → Fits limit (push_digit radix limit acc c)
  unfolding push_digit
  push_digit-Fits none c = tt
  push_digit-Fits (some acc) c = elim (Option-cases (to_digit radix c)) [
    | inl e ↦ rw (push_digit, e) tt
    | inr (d, e) ↦ elim (Bool-cases (ltb (acc * radix + d) limit)) [
      | inl less ↦ rw (push_digit, e, less) (ltb→lt (acc * radix + d) limit less)
      | inr more ↦ rw (push_digit, e, more) tt
    ]
  ]

  read_digits-Fits :
      (s : Str) (acc : Option ℕ) → Fits limit acc → Fits limit (read_digits radix limit acc s)
  unfolding read_digits
  read_digits-Fits [] acc h = h
  read_digits-Fits (c ∷ s) acc h =
      read_digits-Fits s (push_digit radix limit acc c) (push_digit-Fits acc c)

  -- A number that is read is below the limit of its type.
  pub from_str_radix-lt : (s : Str) (n : ℕ) → from_str_radix radix limit s ≡ some n → n < limit
  unfolding from_str_radix read_nonempty
  from_str_radix-lt [] n h = absurd (cc h)
  from_str_radix-lt (c ∷ s) n h = elim (Bool-cases (c == b'+')) [
    | inl plus ↦ by_rest s (rw plus at h)
    | inr plain ↦
        let h' : read_digits radix limit (some 0) (c ∷ s) ≡ some n = rw plain at h in
        rw h' at (read_digits-Fits (c ∷ s) (some 0) positive)
  ]
    where
      by_rest : (s : Str) → read_nonempty radix limit s ≡ some n → n < limit
      by_rest [] h = absurd (cc h)
      by_rest (c ∷ s) h = rw h at (read_digits-Fits (c ∷ s) (some 0) positive)
