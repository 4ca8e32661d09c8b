-- ===== src/Memdb/Stash/FuzzyLaws.antt =====
-- src/memdb/stash.rs: which SDKs a fuzzy match answers with.
use Prim.Native.Nat.{compare, lt, eq, gt}
use mathlib.Core.List.{Perm}
use native.Mathlib.Decide.{dec_le}
use symbolserver.Prelude.{
  ◌≤◌, ap, ◌++◌, drop, ℕ, ◌<◌, ◌≡◌, refl, ◌∙◌, Bool, true, false, ◌&&◌, ltb, if◌then◌else◌,
}
use symbolserver.Prelude.{
  some, List, [], ◌∷◌, any, take, length, arith, Bool-cases, ◌⊎◌, inl, inr, zero, suc,
}
use symbolserver.Prelude.Order.{◌=?◌, eq_of_=?, =?_refl, nat_ord, list_ord, option_ord}
use symbolserver.Prelude.Sort.{
  sort_by, sort_by-Perm, IsAscending, sort_by-IsAscending, first, first-sort_by,
}
use symbolserver.Errors.{Str}
use symbolserver.Sdk.{SdkInfo, sdk_ord, sdk-cmp_refl, get_fuzzy_match}
use symbolserver.Sdk.Filename.{from_filename}
use symbolserver.Memdb.Stash.Fuzzy.{rank, rev_cmp, fuzzy_cmp, fuzzy_matches}

and-true : (a b : Bool) → (a && b) ≡ true → (a ≡ true) × (b ≡ true)
and-true a b h = ground arith

rank_refl : (w : SdkInfo) → rank w w ≡ 0
unfolding rank get_fuzzy_match
rank_refl w = rw (
  rank,
  get_fuzzy_match,
  =?_refl w.name,
  =?_refl w.version_major,
  =?_refl w.version_minor,
  =?_refl w.version_patchlevel,
  =?_refl w.build,
)

-- Only the SDK itself has rank 0.
rank_cases : (w x : SdkInfo) → (x ≡ w) ⊎ (0 < rank w x)
unfolding rank get_fuzzy_match
rank_cases w x =
    elim (Bool-cases (
      x.name =? w.name
      && (x.version_major =? w.version_major && x.version_minor =? w.version_minor))) [
        | inr e ↦ inr (rw (e, rank, get_fuzzy_match) (omega arith))
        | inl e ↦ elim (Bool-cases (x.version_patchlevel =? w.version_patchlevel)) [
          | inr p ↦ inr (rw (e, p, rank, get_fuzzy_match) (omega arith))
          | inl p ↦ elim (Bool-cases (x.build =? w.build)) [
            | inr b ↦ inr (rw (e, p, b, rank, get_fuzzy_match) (omega arith))
            | inl b ↦
                let (n, v) = and-true _ _ e in
                let (v₁, v₂) = and-true _ _ v in
                inl (λ i. record {
                  name = eq_of_=? x.name w.name n i;
                  version_major = eq_of_=? x.version_major w.version_major v₁ i;
                  version_minor = eq_of_=? x.version_minor w.version_minor v₂ i;
                  version_patchlevel = eq_of_=? x.version_patchlevel w.version_patchlevel p i;
                  build = eq_of_=? x.build w.build b i;
                })
          ]
        ]
      ]

compare-lt : (a b : ℕ) → a < b → compare a b ≡ lt
compare-lt a b h = ground arith

compare-gt : (a b : ℕ) → b < a → compare a b ≡ gt
compare-gt a b h = ground arith

fuzzy_least : (w x : SdkInfo) → (fuzzy_cmp w w x ≡ lt) ⊎ (fuzzy_cmp w w x ≡ eq)
unfolding fuzzy_cmp rev_cmp
fuzzy_least w x = elim (rank_cases w x) [
  | inl e ↦ inr (rw (e, rank_refl w, sdk-cmp_refl w) refl)
  | inr h ↦ inl (rw (rank_refl w, compare-lt 0 (rank w x) h) refl)
]

fuzzy_above : (w x : SdkInfo) → (x =? w) ≡ false → fuzzy_cmp w x w ≡ gt
unfolding fuzzy_cmp rev_cmp
fuzzy_above w x e = elim (rank_cases w x) [
  | inl same ↦ let t : (x =? w) ≡ true = rw same (=?_refl w) in absurd (cc (e, t))
  | inr h ↦ rw (rank_refl w, compare-gt (rank w x) 0 h) refl
]

first-take : {A : Type 0} (xs : List A) → first (take 10 xs) ≡ first xs
first-take [] = refl
first-take (x ∷ xs) = refl

-- If the id is parsed to an SDK that is among the known ones, then this SDK is the first match.
pub first-fuzzy_matches :
    (known : List SdkInfo) (id : Str) (wanted : SdkInfo)
    → from_filename id ≡ some wanted
    → any (λ i. i =? wanted) known ≡ true
    → first (fuzzy_matches known id) ≡ some wanted
unfolding fuzzy_matches
first-fuzzy_matches known id wanted parsed there =
    rw (parsed, first, fuzzy_matches)
      (first-take (sort_by (fuzzy_cmp wanted) known)
        ∙ first-sort_by (fuzzy_cmp wanted) wanted (λ i. i =? wanted) (λ i. eq_of_=? i wanted)
            (fuzzy_least wanted) (fuzzy_above wanted) known there)

length-take_min :
    {A : Type 0} (n : ℕ) (xs : List A)
    → length (take n xs) ≡ (if ltb (length xs) n then length xs else n)
length-take_min zero xs = ground arith
length-take_min (suc n) [] = ground arith
length-take_min (suc n) (x ∷ xs) = ground (arith, length-take_min n xs)

-- The comparison looks at the rank first.
fuzzy_not_after : (w x y : SdkInfo) → (fuzzy_cmp w x y ≡ gt) ⊎ (rank w x ≤ rank w y)
unfolding fuzzy_cmp
fuzzy_not_after w x y = elim (dec_le (rank w x) (rank w y)) [
  | yes le ↦ inr le
  | no over ↦ inl (rw (compare-gt (rank w x) (rank w y) (omega arith)) refl)
]

fuzzy_after : (w x y : SdkInfo) → fuzzy_cmp w x y ≡ gt → rank w y ≤ rank w x
unfolding fuzzy_cmp
fuzzy_after w x y h = elim (dec_le (rank w y) (rank w x)) [
  | yes le ↦ le
  | no over ↦
      let e : fuzzy_cmp w x y ≡ lt = rw (compare-lt (rank w x) (rank w y) (omega arith)) refl in
      absurd (cc (e, h))
]

take-drop_id : {A : Type 0} (n : ℕ) (xs : List A) → take n xs ++ drop n xs ≡ xs
take-drop_id zero xs = refl
take-drop_id (suc n) [] = refl
take-drop_id (suc n) (x ∷ xs) = ap (λ l. x ∷ l) (take-drop_id n xs)

take_cut : {A : Type 0} (n : ℕ) (xs : List A) → (drop n xs ≡ []) ⊎ (length (take n xs) ≡ n)
take_cut zero xs = inr refl
take_cut (suc n) [] = inl refl
take_cut (suc n) (x ∷ xs) = elim (take_cut n xs) [ inl e ↦ inl e | inr e ↦ inr (omega (arith, e)) ]

-- The answers and the SDKs left out are the known ones, the answers first and in the order of their
-- ranks, and none is left out before there are ten answers.
pub record IsNearest (known : List SdkInfo) (wanted : SdkInfo) (answers : List SdkInfo)
    : Type 0 where
  pub left_out : List SdkInfo
  pub rearranged : Perm (answers ++ left_out) known
  pub ordered : IsAscending (rank wanted) (answers ++ left_out)
  pub ten : (left_out ≡ []) ⊎ (length answers ≡ 10)

-- If the id can be parsed, a fuzzy match answers with the known SDKs of the lowest ranks: the
-- answers and the SDKs that are left out are a rearrangement of the known ones, no answer has a
-- higher rank than an SDK behind it or left out, and SDKs are left out only behind ten answers.
pub fuzzy_matches-IsNearest :
    (known : List SdkInfo) (id : Str) (wanted : SdkInfo)
    → from_filename id ≡ some wanted
    → IsNearest known wanted (fuzzy_matches known id)
unfolding fuzzy_matches
fuzzy_matches-IsNearest known id wanted parsed =
    let sorted = sort_by (fuzzy_cmp wanted) known in
    let whole = take-drop_id 10 sorted in
    rw (parsed, fuzzy_matches)
      (record {
        left_out = drop 10 sorted;
        rearranged = rw whole (sort_by-Perm (fuzzy_cmp wanted) known);
        ordered = rw whole (
            sort_by-IsAscending (fuzzy_cmp wanted) (rank wanted) (fuzzy_not_after wanted)
              (fuzzy_after wanted) known);
        ten = take_cut 10 sorted;
      })
