-- ===== src/Utils/IgnorePatterns.antt =====
-- `IgnorePatterns` of src/utils.rs. Compiling a glob is the `globset` crate's: a compiled matcher
-- is the test that it makes of a text.
use symbolserver.Prelude.{Bool, false, not, Option, none, some, List, [], ◌∷◌, ◌≡◌, refl}
use symbolserver.Prelude.{◌==◌, if◌then◌else◌, arith}
use symbolserver.Text.{is_continuation}
use symbolserver.Errors.{Str, Result, ok, err, panic, ◌>>=◌, foreign, yaml_error}

-- The flag says that the pattern is negative.
abbrev pub Pattern : Type 0
Pattern = Bool × (Str → Bool)

abbrev pub IgnorePatterns : Type 0
IgnorePatterns = List Pattern

-- The loop of `is_match`, from the verdict so far.
unfoldable pub match_from : Bool → IgnorePatterns → Str → Bool
match_from rv [] value = rv
match_from rv ((negative, pattern) ∷ rest) value =
    match_from (if pattern value then not negative else rv) rest value

unfoldable pub is_match : IgnorePatterns → Str → Bool
unfolding match_from
is_match self value = match_from false self value

module _ (compile : Str → Option (Str → Bool)) where
  -- `make_pattern`. The slice `value[..1]` panics on an empty text, and within a character.
  unfoldable pub make_pattern : Str → Result Pattern
  make_pattern [] = panic
  make_pattern (c ∷ rest) =
      if is_continuation rest
      then panic
      else let source = if c == b'!' then rest else c ∷ rest in
        elim (compile source) [
          | none ↦ err (foreign yaml_error)
          | some pattern ↦ ok (c == b'!', pattern)
        ]

  -- `visit_seq`: the patterns of a list, in its order.
  unfoldable pub visit_seq : List Str → Result IgnorePatterns
  visit_seq [] = ok []
  visit_seq (item ∷ items) = do p ← make_pattern item; rest ← visit_seq items; ok (p ∷ rest)

-- The last pattern that matches decides.
pub last_match : IgnorePatterns → Str → Option Bool
last_match [] value = none
last_match ((negative, pattern) ∷ rest) value = elim (last_match rest value) [
  | some b ↦ some b
  | none ↦ if pattern value then some (not negative) else none
]

match_from-last_match :
    (rv : Bool) (ps : IgnorePatterns) (value : Str)
    → match_from rv ps value ≡ elim (last_match ps value) [ none ↦ rv | some b ↦ b ]
unfolding match_from last_match
match_from-last_match rv [] value = refl
match_from-last_match rv ((negative, pattern) ∷ rest) value =
    ground (arith, match_from-last_match (if pattern value then not negative else rv) rest value)

-- A text is ignored if the last pattern that matches it exists and is not negative.
pub is_match-last_match :
    (ps : IgnorePatterns) (value : Str)
    → is_match ps value ≡ elim (last_match ps value) [ none ↦ false | some b ↦ b ]
unfolding is_match
is_match-last_match ps value = match_from-last_match false ps value
