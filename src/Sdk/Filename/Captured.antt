-- ===== src/Sdk/Filename/Captured.antt =====
-- src/sdk.rs: what the captures of a file name are.
use symbolserver.Prelude.{ℕ, ◌≡◌, ◌≢◌, refl, ◌∙◌, arith, inl, inr}
use symbolserver.Prelude.{Bool, true, false, not, ◌&&◌, ◌==◌, Bool-cases, Option-cases}
use symbolserver.Prelude.{Option, none, some, [], ◌∷◌, ◌++◌, All, All-append}
use symbolserver.Prelude.Order.{◌=?◌, nat_ord, list_ord}
use mathlib.Core.Option.{some-injective}
use symbolserver.Errors.{Str}
use symbolserver.Sdk.Filename.{
  ◌>>=◌, is_alnum, span, many, expect, optional, Captures, version_captures, ends_memdb, memdb_tail,
  memdb_from,
}

-- The value in the middle of a chain that has one.
pub >>=-some :
    {A B : Type 0} (m : Option A) (f : A → Option B) (b : B)
    → (m >>= f) ≡ some b
    → (a : A) × (m ≡ some a) × (f a ≡ some b)
>>=-some none f b h = absurd (cc h)
>>=-some (some a) f b h = (a, refl, h)

abbrev pub NoSlash : Str → Type 0
NoSlash s = All (λ c. (c == b'/') ≡ false) s

abbrev pub Plain : Str → Type 0
Plain s = All (λ c. ((c == b'-') ≡ false) × ((c == b'/') ≡ false)) s

-- A text of a class that is not empty.
abbrev pub Word : (ℕ → Bool) → Str → Type 0
Word p s = (s ≢ []) × All (λ c. p c ≡ true) s

abbrev pub IsBuild : Option Str → Type 0
IsBuild build = (b : Str) → build ≡ some b → Word is_alnum b

span-All : (p : ℕ → Bool) (s : Str) → All (λ c. p c ≡ true) (span p s).0
unfolding span
span-All p [] = tt
span-All p (c ∷ s) = elim (Bool-cases (p c)) [ inl e ↦ rw e (e, span-All p s) | inr e ↦ rw e tt ]

pub many-Word : (p : ℕ → Bool) (s : Str) (r : Str × Str) → many p s ≡ some r → Word p r.0
unfolding many
many-Word p s r h = by_start (span p s) (span-All p s) h
  where
    by_start :
        (q : Str × Str)
        → All (λ c. p c ≡ true) q.0
        → (elim q.0 as (λ x. Option (Str × Str)) [ [] ↦ none | c ∷ b ↦ some (c ∷ b, q.1) ]) ≡ some r
        → Word p r.0
    by_start ([], rest) k h = absurd (cc h)
    by_start (c ∷ a, rest) k h =
        let same : (c ∷ a, rest) ≡ r = some-injective (c ∷ a, rest) r h in
        rw (← same) (λ e. absurd (cc e), k)

optional-IsBuild : (s : Str) → IsBuild (optional b'_' is_alnum s).0
unfolding optional
optional-IsBuild s = by_match (expect b'_' s >>= many is_alnum) refl
  where
    by_match :
        (m : Option (Str × Str))
        → (expect b'_' s >>= many is_alnum) ≡ m
        → IsBuild
            (elim m as (λ x. Option Str × Str) [ none ↦ (none, s) | some a ↦ (some a.0, a.1) ]).0
    by_match none e b h = absurd (cc h)
    by_match (some r) e b h =
        let (s', _, k) = >>=-some (expect b'_' s) (many is_alnum) r e in
        let same : r.0 ≡ b = some-injective r.0 b h in rw (← same) (many-Word is_alnum s' r k)

-- What the captures of a name are.
pub record IsCaptured (caps : Captures) : Type 0 where
  pub name_nonempty : caps.name ≢ []
  pub name_plain : Plain caps.name
  pub build_plain : IsBuild caps.build

memdb_tail-IsCaptured :
    (name s : Str) (caps : Captures)
    → name ≢ []
    → Plain name
    → memdb_tail name s ≡ some caps
    → IsCaptured caps
unfolding memdb_tail
memdb_tail-IsCaptured name s caps n plain h =
    let (v, _, k) = >>=-some (version_captures s) _ caps h in
    elim (Bool-cases (ends_memdb (optional b'_' is_alnum v.1).1)) [
      | inr not_end ↦ let k' : none ≡ some caps = rw not_end at k in absurd (cc k')
      | inl ends ↦
          let same : some (record {
            name = name;
            major = v.0.0;
            minor = v.0.1.0;
            patchlevel = v.0.1.1;
            build = (optional b'_' is_alnum v.1).0;
          })
              ≡ some caps =
            rw ends at k in
          rw (← some-injective _ caps same)
            (record { name_nonempty = n; name_plain = plain; build_plain = optional-IsBuild v.1 })
    ]

guarded-nonempty : (b : Bool) (x : Str) → (b && not (x =? [])) ≡ true → x ≢ []
guarded-nonempty b [] h = absurd (ground arith)
guarded-nonempty b (c ∷ x) h = λ e. absurd (cc e)

pub memdb_from-IsCaptured :
    (s name : Str) (caps : Captures)
    → NoSlash s
    → Plain name
    → memdb_from name s ≡ some caps
    → IsCaptured caps
unfolding memdb_from
memdb_from-IsCaptured [] name caps h plain e = absurd (cc e)
memdb_from-IsCaptured (c ∷ s) name caps (h, hs) plain e = elim (Bool-cases (c == b'-')) [
  | inl dash ↦ let e' : none ≡ some caps = rw (memdb_from, dash) at e in absurd (cc e')
  | inr other ↦ elim (Option-cases (memdb_from (name ++ c ∷ []) s)) [
    | inr (m, found) ↦
        let same : some m ≡ some caps = rw (memdb_from, other, found) at e in
        memdb_from-IsCaptured s (name ++ c ∷ []) caps hs
          (All-append (λ c. ((c == b'-') ≡ false) × ((c == b'/') ≡ false)) name (c ∷ []) plain
            ((other, h), tt))
          (found ∙ same)
    | inl none_later ↦ elim (Bool-cases (c == b'_' && not (name =? []))) [
      | inl here ↦
          let e' : memdb_tail name s ≡ some caps = rw (memdb_from, other, none_later, here) at e in
          memdb_tail-IsCaptured name s caps (guarded-nonempty (c == b'_') name here) plain e'
      | inr not_here ↦
          let e' : none ≡ some caps = rw (memdb_from, other, none_later, not_here) at e in
          absurd (cc e')
    ]
  ]
]
