-- ===== src/Utils/BinSearch.antt =====
-- `binsearch_by_key` of src/utils.rs.
use symbolserver.Prelude.{ℕ, zero, suc, ◌+◌, ◌-◌, ◌/◌, ◌<◌, ◌≤◌, ◌≡◌, refl, Bool, true, false}
use symbolserver.Prelude.{Option, none, some, List, [], ◌∷◌, arith, ltb, if◌then◌else◌}
use symbolserver.Prelude.{
  length, get_elem?, get_elem?-lt, lt_of_get_elem?, Bool-cases, Option-cases,
}
use symbolserver.Prelude.Order.{Ord, ◌<?◌}
use symbolserver.Errors.{Result, ok, panic, ◌>>=◌}
use symbolserver.Prelude.{inl, inr}
pub mod Laws
pub mod Sorting

-- An index out of range panics.
unfoldable pub index {ℓ} : {A : Type ℓ} → List A → ℕ → Result A
index xs i = elim (get_elem? xs i) [ none ↦ panic | some x ↦ ok x ]

module _ {ℓ κ} {A : Type ℓ} {B : Type κ} ⦃o : Ord B⦄ (f : A → B) (slice : List A) (item : B) where
  -- The `while low < high` loop, on fuel; it returns the last value of `low`. That the fuel
  -- given below is never used up is part of `binsearch_by_key-eq-last_le`.
  unfoldable pub search_loop : ℕ → ℕ → ℕ → Result ℕ
  unfolding index
  search_loop zero low high = panic
  search_loop (suc fuel) low high =
      let mid = (low + high) / 2 in
      let below = search_loop fuel low mid in
      let above = search_loop fuel (mid + 1) high in
      if ltb low high
      then (do cur_item ← index slice mid; if item <? f cur_item then below else above)
      else ok low

  -- The result after the loop: the element before the split point.
  unfoldable pub pick : ℕ → Result (Option A)
  unfolding index
  pick zero = ok none
  pick (suc i) = if ltb i (length slice) then (do x ← index slice i; ok (some x)) else ok none

  unfoldable pub binsearch_by_key : Result (Option A)
  unfolding search_loop pick
  binsearch_by_key = do low ← search_loop (suc (length slice)) 0 (length slice); pick low
