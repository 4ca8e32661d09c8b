-- ===== src/Sdk/Filename/Matching.antt =====
-- src/sdk.rs: what the matchers of the file name expression find in a text, and where they fail.
use symbolserver.Prelude.{ℕ, ◌≤◌, ◌<◌, ◌≡◌, ◌≢◌, ◌⊎◌, refl, sym, ap, ◌∙◌, arith, inl, inr}
use symbolserver.Prelude.{Bool, true, false, ◌||◌, ◌==◌, Bool-cases}
use symbolserver.Prelude.{Option, none, some, [], ◌∷◌, ◌++◌, All, All-imp, length}
use symbolserver.Prelude.{or-false}
use symbolserver.Prelude.Order.{◌=?◌, eq_of_=?, nat_ord, list_ord}
use mathlib.Core.List.{append_assoc, append-nil}
use symbolserver.Errors.{Str}
use symbolserver.Text.{codes, from_digit}
use symbolserver.Text.Radix.{IsDigit, to_radix-IsDigit, length-to_radix_pos}
use symbolserver.Sdk.{SdkInfo, decimal}
use symbolserver.Sdk.Filename.{
  ◌>>=◌, is_digit, is_alnum, span, many, expect, optional, Captures, version_captures, ends_memdb,
  memdb_tail, memdb_from, memdb_captures, sdk_of, split_on, normal, reverse_onto, components,
  file_name, from_path,
}

-- A text that a class does not match at its start.
abbrev pub Stops : (ℕ → Bool) → Str → Type 0
Stops p [] = Unit
Stops p (c ∷ s) = p c ≡ false

pub span-append :
    (p : ℕ → Bool) (a b : Str) → All (λ c. p c ≡ true) a → Stops p b → span p (a ++ b) ≡ (a, b)
unfolding span
span-append p [] [] h k = refl
span-append p [] (c ∷ b) h k = rw k refl
span-append p (c ∷ a) b (h, hs) k = rw (h, span-append p a b hs k) refl

pub many-span :
    (p : ℕ → Bool) (s : Str) (r : Str × Str) → span p s ≡ r → r.0 ≢ [] → many p s ≡ some r
unfolding many
many-span p s ([], rest) e n = absurd (n refl)
many-span p s (c ∷ a, rest) e n =
    ap (λ r. elim r.0 as (λ x. Option (Str × Str)) [ [] ↦ none | c ∷ b ↦ some (c ∷ b, r.1) ]) e

pub many-append :
    (p : ℕ → Bool) (a b : Str)
    → a ≢ []
    → All (λ c. p c ≡ true) a
    → Stops p b
    → many p (a ++ b) ≡ some (a, b)
many-append p a b n h k = many-span p (a ++ b) (a, b) (span-append p a b h k) n

pub decimal-digits : (n : ℕ) → All (λ c. is_digit c ≡ true) (decimal n)
unfolding from_digit
decimal-digits n =
    All-imp (IsDigit 10) (λ c. is_digit c ≡ true) (decimal n) (λ c (d, h, e). rw e (ground arith))
      (to_radix-IsDigit 10 (omega arith) n)

pub decimal-nonempty : (n : ℕ) → decimal n ≢ []
decimal-nonempty n h = omega (arith, length-to_radix_pos 10 (omega arith) n, ap length h)

-- The ends of a name: nothing, or the extension of a memdb file, compressed or not.
abbrev pub IsSuffix : Str → Type 0
IsSuffix s = ends_memdb s ≡ true

-- What stands behind the patchlevel: the build, if there is one, and the suffix.
abbrev pub behind : Option Str → Str → Str
behind none suffix = suffix
behind (some build) suffix = b'_' ∷ (build ++ suffix)

-- A suffix starts with the dot of no number, and it has no underscore.
pub suffix_cases :
    (s : Str) → IsSuffix s → (s ≡ []) ⊎ ((s ≡ codes ".memdb") ⊎ (s ≡ codes ".memdbz"))
unfolding ends_memdb
suffix_cases s h = elim (Bool-cases (s =? [])) [
  | inl e ↦ inl (eq_of_=? s [] e)
  | inr n ↦ elim (Bool-cases (s =? codes ".memdb")) [
    | inl e ↦ inr (inl (eq_of_=? s (codes ".memdb") e))
    | inr n' ↦
        let neither : (s =? [] || s =? codes ".memdb") ≡ false = rw (n, n') refl in
        inr (
          inr (
            eq_of_=? s (codes ".memdbz")
              (or-false (s =? [] || s =? codes ".memdb") (s =? codes ".memdbz") neither h)))
  ]
]

-- What holds of the three suffixes.
pub record IsEnd (s : Str) : Type 0 where
  pub no_digit : Stops is_digit s
  pub no_alnum : Stops is_alnum s
  pub no_number : (expect b'.' s >>= many is_digit) ≡ none
  pub no_build : expect b'_' s ≡ none
  pub no_name : All (λ c. (c == b'_') ≡ false) s
  pub no_slash : All (λ c. (c == b'/') ≡ false) s

pub suffix-IsEnd : (s : Str) → IsSuffix s → IsEnd s
unfolding expect many span
suffix-IsEnd s h = elim (suffix_cases s h) [
  | inl e ↦ rw e (record {
    no_digit = tt;
    no_alnum = tt;
    no_number = refl;
    no_build = refl;
    no_name = tt;
    no_slash = tt;
  })
  | inr (inl e) ↦ rw e (record {
    no_digit = refl;
    no_alnum = refl;
    no_number = refl;
    no_build = refl;
    no_name = (refl, (refl, (refl, (refl, (refl, (refl, tt))))));
    no_slash = (refl, (refl, (refl, (refl, (refl, (refl, tt))))));
  })
  | inr (inr e) ↦ rw e (record {
    no_digit = refl;
    no_alnum = refl;
    no_number = refl;
    no_build = refl;
    no_name = (refl, (refl, (refl, (refl, (refl, (refl, (refl, tt)))))));
    no_slash = (refl, (refl, (refl, (refl, (refl, (refl, (refl, tt)))))));
  })
]

-- A build in front of a suffix is not read as a version.
pub no_version :
    (b suffix : Str)
    → All (λ c. is_alnum c ≡ true) b
    → IsEnd suffix
    → (expect b'.' (span is_digit (b ++ suffix)).1 >>= many is_digit) ≡ none
unfolding span expect
no_version [] suffix h s = rw (span-append is_digit [] suffix tt s.no_digit) s.no_number
no_version (c ∷ b) suffix (h, hs) s = elim (Bool-cases (is_digit c)) [
  | inl digit ↦ rw digit (no_version b suffix hs s)
  | inr letter ↦ let dot : (c == b'.') ≡ false = ground arith in rw (letter, dot) refl
]

-- A chain whose second step fails.
pub >>=-none :
    {A B C : Type 0} (m : Option A) (f : A → Option B) (k : B → Option C)
    → (m >>= f) ≡ none
    → (m >>= λ a. f a >>= k) ≡ none
>>=-none none f k h = refl
>>=-none (some a) f k h = ap (λ o. o >>= k) h

pub many-cases :
    (p : ℕ → Bool) (s : Str) → (many p s ≡ none) ⊎ ((a : Str) × (many p s ≡ some (a, (span p s).1)))
unfolding many
many-cases p s = by_start (span p s)
  where
    by_start :
        (r : Str × Str)
        → let m : Option (Str × Str) = elim r.0 [ [] ↦ none | c ∷ b ↦ some (c ∷ b, r.1) ] in
          (m ≡ none) ⊎ ((a : Str) × (m ≡ some (a, r.1)))
    by_start ([], rest) = inl refl
    by_start (c ∷ a, rest) = inr (c ∷ a, refl)

-- A text without a second number has no version.
pub memdb_tail-none :
    (x s : Str) → (expect b'.' (span is_digit s).1 >>= many is_digit) ≡ none → memdb_tail x s ≡ none
unfolding memdb_tail version_captures
memdb_tail-none x s h = elim (many-cases is_digit s) [
  | inl e ↦ rw e refl
  | inr (a, e) ↦
      rw
        (
          e,
          >>=-none {C = (Str × (Str × Option Str)) × Str} (expect b'.' (span is_digit s).1)
              (many is_digit)
              (λ (minor, s₃).
                some ((a, (minor, (optional b'.' is_digit s₃).0)), (optional b'.' is_digit s₃).1))
              h,
        )
        refl
]

abbrev pub NoUnderscore : Str → Type 0
NoUnderscore s = All (λ c. (c == b'_') ≡ false) s

pub alnum-NoUnderscore : (s : Str) → All (λ c. is_alnum c ≡ true) s → NoUnderscore s
alnum-NoUnderscore s h =
    All-imp (λ c. is_alnum c ≡ true) (λ c. (c == b'_') ≡ false) s (λ c k. ground arith) h

pub digits-NoUnderscore : (s : Str) → All (λ c. is_digit c ≡ true) s → NoUnderscore s
digits-NoUnderscore s h =
    All-imp (λ c. is_digit c ≡ true) (λ c. (c == b'_') ≡ false) s (λ c k. ground arith) h

-- Without an underscore, nothing is found.
pub memdb_from-none : (s : Str) → NoUnderscore s → (x : Str) → memdb_from x s ≡ none
unfolding memdb_from
memdb_from-none [] h x = refl
memdb_from-none (c ∷ s) (h, hs) x =
    rw (memdb_from-none s hs (x ++ c ∷ []), h)
      (elim (Bool-cases (c == b'-')) [ inl e ↦ rw e refl | inr e ↦ rw e refl ])

-- In front of a text where nothing is found, neither.
pub memdb_from-append :
    (u v : Str)
    → NoUnderscore u
    → ((x : Str) → memdb_from x v ≡ none)
    → (x : Str) → memdb_from x (u ++ v) ≡ none
unfolding memdb_from
memdb_from-append [] v h k x = k x
memdb_from-append (c ∷ u) v (h, hs) k x =
    rw (memdb_from-append u v hs k (x ++ c ∷ []), h)
      (elim (Bool-cases (c == b'-')) [ inl e ↦ rw e refl | inr e ↦ rw e refl ])

-- Behind an underscore, neither, if no version follows it.
pub memdb_from-underscore :
    (w : Str)
    → NoUnderscore w
    → ((y : Str) → memdb_tail y w ≡ none)
    → (x : Str) → memdb_from x (b'_' ∷ w) ≡ none
unfolding memdb_from
memdb_from-underscore w k e x =
    rw (memdb_from-none w k (x ++ b'_' ∷ []))
      (elim (Bool-cases (x =? [])) [ inl q ↦ rw q refl | inr q ↦ rw (q, e x) refl ])

pub nonempty_lem : (s : Str) → s ≢ [] → (s =? []) ≡ false
nonempty_lem s n = elim (Bool-cases (s =? [])) [ inl e ↦ absurd (n (eq_of_=? s [] e)) | inr e ↦ e ]

-- The last underscore behind which a version stands ends the name.
pub memdb_from-found :
    (name x p v : Str) (caps : Captures)
    → x ++ p ≡ name
    → name ≢ []
    → All (λ c. (c == b'-') ≡ false) p
    → ((y : Str) → memdb_from y v ≡ none)
    → memdb_tail name v ≡ some caps
    → memdb_from x (p ++ (b'_' ∷ v)) ≡ some caps
unfolding memdb_from
memdb_from-found name x [] v caps q n h k e =
    let same : x ≡ name = sym (append-nil x) ∙ q in
    rw (k (x ++ b'_' ∷ []), same, nonempty_lem name n) e
memdb_from-found name x (c ∷ p) v caps q n (h, hs) k e =
    rw (h, memdb_from-found name (x ++ c ∷ []) p v caps (append_assoc x (c ∷ []) p ∙ q) n hs k e)
      refl

pub shorter-ne : (s t : Str) → length t < length s → (s =? t) ≡ false
shorter-ne s t h = elim (Bool-cases (s =? t)) [
  | inl e ↦ absurd (omega (arith, h, ap length (eq_of_=? s t e)))
  | inr e ↦ e
]

pub split_on-none : (x : ℕ) (s : Str) → All (λ c. (c == x) ≡ false) s → split_on x s ≡ s ∷ []
unfolding split_on
split_on-none x [] h = refl
split_on-none x (c ∷ s) (h, hs) = rw (split_on-none x s hs, h) refl

-- A path without a slash is a file name, if it is long enough not to be one of the two dots.
pub file_name-components :
    (s : Str) → All (λ c. (c == b'/') ≡ false) s → 3 ≤ length s → file_name (components s) ≡ some s
unfolding components normal reverse_onto file_name
file_name-components s h k =
    rw
      (
        components,
        split_on-none b'/' s h,
        shorter-ne s [] (omega (arith, k)),
        shorter-ne s (codes ".") (omega (arith, k)),
        shorter-ne s (codes "..") (omega (arith, k)),
        shorter-ne s (codes ".") (omega (arith, k)),
      )
      refl

pub sdk_of-some :
    (other : Option SdkInfo) (m : Option Captures) (caps : Captures)
    → m ≡ some caps
    → (elim m as (λ x. Option SdkInfo) [ none ↦ other | some c ↦ sdk_of c ]) ≡ sdk_of caps
sdk_of-some other m caps e =
    ap (λ m. elim m as (λ x. Option SdkInfo) [ none ↦ other | some c ↦ sdk_of c ]) e

pub from_path-captured :
    (path filename : Str) (caps : Captures)
    → file_name (components path) ≡ some filename
    → memdb_captures filename ≡ some caps
    → from_path path ≡ sdk_of caps
unfolding from_path memdb_captures
from_path-captured path filename caps e k =
    rw (from_path, e) (sdk_of-some _ (memdb_captures filename) caps k)
