-- ===== src/Memdb/Stash/Keyed.antt =====
-- The maps of src/memdb/stash.rs hold every SDK under its own file name, once.
use symbolserver.Prelude.{◌≡◌, refl, ap, ◌∙◌, sym, Bool, true, false, ◌&&◌, ◌||◌}
use symbolserver.Prelude.{none, some, List, [], ◌∷◌, any, All, All-imp, Bool-cases, inl, inr}
use symbolserver.Prelude.Order.{◌=?◌, =?_refl, eq_of_=?, nat_ord, list_ord}
use mathlib.Core.Option.{some-injective}
use symbolserver.Prelude.Map
use symbolserver.Prelude.Map.{Map, values, NodupKeys}
use symbolserver.Errors.{Str}
use symbolserver.Sdk.{SdkInfo, sdk_ord, memdb_filename}
use symbolserver.Memdb.Stash.State.{RemoteSdk}
use symbolserver.Memdb.Stash.Sync.{infos, insert_all}

abbrev pub Keyed : Map Str RemoteSdk → Type 0
Keyed [] = Unit
Keyed ((k, s) ∷ m) = (memdb_filename s.info ≡ k) × Keyed m

pub record IsKeyed (sdks : Map Str RemoteSdk) : Type 0 where
  pub nodup : NodupKeys sdks
  pub keyed : Keyed sdks

insert-Keyed :
    (s : RemoteSdk) (m : Map Str RemoteSdk)
    → Keyed m
    → Keyed (Map.insert (memdb_filename s.info) s m)
unfolding Map.insert
insert-Keyed s [] h = (refl, tt)
insert-Keyed s ((k, t) ∷ m) (e, h) = elim (Bool-cases (k =? memdb_filename s.info)) [
  | inl same ↦ rw same (refl, h)
  | inr other ↦ rw other (e, insert-Keyed s m h)
]

remove-Keyed : (k : Str) (m : Map Str RemoteSdk) → Keyed m → Keyed (Map.remove k m)
unfolding Map.remove
remove-Keyed k [] h = tt
remove-Keyed k ((j, t) ∷ m) (e, h) = elim (Bool-cases (j =? k)) [
  | inl same ↦ rw same (remove-Keyed k m h)
  | inr other ↦ rw other (e, remove-Keyed k m h)
]

pub insert-IsKeyed :
    (s : RemoteSdk) {m : Map Str RemoteSdk}
    → IsKeyed m
    → IsKeyed (Map.insert (memdb_filename s.info) s m)
insert-IsKeyed s {m} h = record {
  nodup = Map.insert-NodupKeys (memdb_filename s.info) s m h.nodup;
  keyed = insert-Keyed s m h.keyed;
}

pub remove-IsKeyed : (k : Str) {m : Map Str RemoteSdk} → IsKeyed m → IsKeyed (Map.remove k m)
remove-IsKeyed k {m} h = record {
  nodup = Map.remove-NodupKeys k m h.nodup;
  keyed = remove-Keyed k m h.keyed;
}

pub insert_all-IsKeyed :
    (sdks : List RemoteSdk) {m : Map Str RemoteSdk} → IsKeyed m → IsKeyed (insert_all m sdks)
unfolding insert_all
insert_all-IsKeyed [] h = h
insert_all-IsKeyed (s ∷ rest) h = insert_all-IsKeyed rest (insert-IsKeyed s h)

-- The SDK under a key has that key for its file name.
pub get-Keyed :
    (k : Str) (m : Map Str RemoteSdk) (s : RemoteSdk)
    → Keyed m
    → Map.get k m ≡ some s
    → memdb_filename s.info ≡ k
unfolding Map.get
get-Keyed k [] s h e = cc
get-Keyed k ((j, t) ∷ m) s (same, h) e = elim (Bool-cases (j =? k)) [
  | inl here ↦
      let e' : some t ≡ some s = rw here at e in
      ap (λ (r : RemoteSdk). memdb_filename r.info) (some-injective s t (sym e'))
      ∙ (same ∙ eq_of_=? j k here)
  | inr there ↦ get-Keyed k m s h (rw there at e)
]

or_false : (b : Bool) → (b || false) ≡ b
or_false true = refl
or_false false = refl

-- A test of the SDKs with a given file name is a test of the one under that key.
pub any-infos :
    (p : SdkInfo → Bool) (k : Str) {m : Map Str RemoteSdk}
    → IsKeyed m
    → any (λ i. memdb_filename i =? k && p i) (infos m)
      ≡ elim (Map.get k m) [ none ↦ false | some s ↦ p s.info ]
any-infos p k {m} h = go m h.nodup h.keyed
  where
    go :
        (m : Map Str RemoteSdk)
        → NodupKeys m
        → Keyed m
        → any (λ i. memdb_filename i =? k && p i) (infos m)
          ≡ elim (Map.get k m) [ none ↦ false | some s ↦ p s.info ]
    go [] n h = unfold Map.get in refl
    go ((j, s) ∷ m) (fresh, n) (e, h) = elim (Bool-cases (j =? k)) [
      | inl here ↦
          let gone : Map.get k m ≡ none = rw (← eq_of_=? j k here) fresh in
          rw (e, here, go m n h, gone) (unfold Map.get in rw here (or_false (p s.info)))
      | inr there ↦ rw (e, there, go m n h) (unfold Map.get in rw there)
    ]

-- Every SDK of a keyed map is found under its own name.
pub infos_found :
    (m : Map Str RemoteSdk)
    → Keyed m
    → All (λ (i : SdkInfo). (s : RemoteSdk) × (Map.get (memdb_filename i) m ≡ some s)) (infos m)
unfolding Map.get
infos_found [] h = tt
infos_found ((j, s) ∷ m) (e, h) = (
  (s, rw (e, =?_refl j)),
  All-imp (λ (i : SdkInfo). (t : RemoteSdk) × (Map.get (memdb_filename i) m ≡ some t)) _ (infos m)
      (λ i (t, at). elim (Bool-cases (j =? memdb_filename i)) [
        | inl here ↦ (s, rw here)
        | inr there ↦ (t, rw there at)
      ])
      (infos_found m h),
)
