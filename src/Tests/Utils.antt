-- ===== src/Tests/Utils.antt =====
-- src/utils.rs: the unit test of `binsearch_by_key`, addresses, ignore patterns.
use Prim.Native.Nat.{ℕ}
use symbolserver.Prelude.{◌≡◌, refl, true, false, Option, none, some, List, [], ◌∷◌, arith}
use symbolserver.Prelude.{ltb, if◌then◌else◌, get_elem?, ◌<◌, ◌⊎◌}
use symbolserver.Prelude.Order.{nat_ord, ◌=?◌, list_ord}
use symbolserver.Errors.{ok, panic}
use symbolserver.Text.{codes, to_radix}
use symbolserver.Utils.BinSearch.{binsearch_by_key}
use symbolserver.Utils.BinSearch.Laws.{
  last_le, binsearch_by_key-eq-last_le, binsearch_by_key_total, ascending, ascending-IsSorted,
}
use symbolserver.Utils.Addr.{serialize, visit_str}
use symbolserver.Utils.Addr.Laws.{visit_str-serialize, visit_str-decimal}
use symbolserver.Utils.IgnorePatterns.{IgnorePatterns, is_match, last_match, is_match-last_match}

abbrev seq : List ℕ
seq = 0 ∷ 2 ∷ 4 ∷ 6 ∷ 8 ∷ 10 ∷ []

-- `test_binsearch`
test_binsearch : binsearch_by_key (λ (x : ℕ). x) seq 5 ≡ ok (some 4)
unfolding binsearch_by_key
test_binsearch = refl

below_all : binsearch_by_key (λ (x : ℕ). x) (3 ∷ 4 ∷ []) 2 ≡ ok none
unfolding binsearch_by_key
below_all = refl

binsearch_by_key-eq-last_le_example :
    binsearch_by_key (λ (x : ℕ). x) seq 5 ≡ ok (last_le (λ (x : ℕ). x) seq 5)
unfolding ascending
binsearch_by_key-eq-last_le_example =
    binsearch_by_key-eq-last_le (λ (x : ℕ). x) seq 5 (ascending-IsSorted (λ (x : ℕ). x) seq refl)

binsearch_by_key_total_example :
    (r : Option ℕ) × (binsearch_by_key (λ (x : ℕ). x) (9 ∷ 1 ∷ 5 ∷ []) 4 ≡ ok r)
    × ((r ≡ none) ⊎ ((i : ℕ) × (i < 3) × (get_elem? (9 ∷ 1 ∷ 5 ∷ []) i ≡ r)))
binsearch_by_key_total_example = binsearch_by_key_total (λ (x : ℕ). x) (9 ∷ 1 ∷ 5 ∷ []) 4

address_text : serialize 0x23cf000 ≡ codes "0x23cf000"
unfolding serialize
address_text = refl

visit_str-serialize_example : visit_str (serialize 0x23cf000) ≡ ok 0x23cf000
visit_str-serialize_example = visit_str-serialize 0x23cf000 (omega arith)

visit_str-decimal_example : visit_str (to_radix 10 7) ≡ (if ltb 7 10 then panic else ok 7)
visit_str-decimal_example = visit_str-decimal 7 (omega arith)

-- `'*'` and `'!iOS_10'`, with matchers for these two globs.
abbrev patterns : IgnorePatterns
patterns = (false, λ _. true) ∷ (true, λ s. s =? codes "iOS_10") ∷ []

is_match-last_match_example :
    is_match patterns (codes "iOS_10")
    ≡ elim (last_match patterns (codes "iOS_10")) [ none ↦ false | some b ↦ b ]
is_match-last_match_example = is_match-last_match patterns (codes "iOS_10")

kept : is_match patterns (codes "iOS_10") ≡ false
unfolding is_match
kept = refl

ignored : is_match patterns (codes "iOS_9") ≡ true
unfolding is_match
ignored = refl
