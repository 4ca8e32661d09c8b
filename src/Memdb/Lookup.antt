-- ===== src/Memdb/Lookup.antt =====
-- src/memdb/read.rs: lookups by UUID and by object name, and the iteration over an object.
pub mod Laws
pub mod Safety
pub mod Memory
use symbolserver.Prelude.{ℕ, zero, suc, ◌+◌, ◌-◌, Bool, true, false}
use symbolserver.Prelude.{Option, none, some, List, [], ◌∷◌, ◌++◌, length}
use symbolserver.Prelude.{ltb, ◌==◌, if◌then◌else◌}
use symbolserver.Prelude.Order.{◌=?◌, list_ord, nat_ord}
use symbolserver.Errors.{Str, Result, ok, err, panic, undefined, ◌>>=◌, ErrorKind}
use symbolserver.Text.{codes}
use symbolserver.Utils.BinSearch.{index, binsearch_by_key}
use symbolserver.Memdb.Types.{Uuid, IndexedUuid, IndexItem}
use symbolserver.Memdb.Read.{
  MemDb, Symbol, header, get_cstr, uuids, get_index, index_item_to_symbol, lookup_impl,
}

-- `.ok().and_then(|x| x)`
abbrev pub flatten_ok {ℓ} : {A : Type ℓ} → Result (Option A) → Result (Option A)
flatten_ok (ok x) = ok x
flatten_ok (err e) = ok none
flatten_ok panic = panic
flatten_ok undefined = undefined

module _ (db : MemDb) where
  unfoldable pub lookup_by_uuid : Uuid → ℕ → Result (Option Symbol)
  lookup_by_uuid uuid addr = flatten_ok (lookup_impl db uuid addr)

  -- The `while` loop of `find_uuid`. Every round moves on by a byte at least, so the distance to
  -- the end is fuel enough.
  unfoldable pub find_loop : ℕ → ℕ → Str → ℕ → ℕ → Result (Option Uuid)
  find_loop zero end refstr offset uuid_idx = ok none
  find_loop (suc fuel) end refstr offset uuid_idx =
      let next = λ (s : Str). find_loop fuel end refstr (offset + (length s + 1)) (uuid_idx + 1) in
      if ltb offset end
      then (do
        s ← get_cstr db offset
        if s =? refstr
            then (do table ← uuids db; item ← index table uuid_idx; ok (some item.uuid))
            else next s)
      else ok none

  unfoldable pub find_uuid : Str → Str → Result (Option Uuid)
  find_uuid object_name arch = do
    h ← header db.backing
    find_loop (h.tagged_object_names_end - h.tagged_object_names_start) h.tagged_object_names_end
        (object_name ++ (codes ":" ++ arch)) h.tagged_object_names_start 0

  -- `if let Ok(Some(uuid))`
  abbrev by_found : ℕ → Result (Option Uuid) → Result (Option Symbol)
  by_found addr (ok (some uuid)) = flatten_ok (lookup_impl db uuid addr)
  by_found addr (ok none) = ok none
  by_found addr (err e) = ok none
  by_found addr panic = panic
  by_found addr undefined = undefined

  unfoldable pub lookup_by_object_name : Str → Str → ℕ → Result (Option Symbol)
  lookup_by_object_name object_name arch addr = by_found addr (find_uuid object_name arch)

  -- `rsplitn(2, ':')` with both parts there: what stands before and behind the last colon.
  abbrev split_last : ℕ → Str → Option (Str × Str)
  split_last sep [] = none
  split_last sep (c ∷ s) = elim (split_last sep s) [
    | some (a, b) ↦ some (c ∷ a, b)
    | none ↦ if c == sep then some ([], s) else none
  ]

  -- The parser of the `uuid` crate is handed in.
  module _ (parse_uuid : Str → Option Uuid) where
    unfoldable pub find_uuid_fuzzy : Str → Result (Option Uuid)
    find_uuid_fuzzy name_or_uuid = elim (parse_uuid name_or_uuid) [
      | some parsed ↦ do
        table ← uuids db
        found ← binsearch_by_key (λ (i : IndexedUuid). i.uuid) table parsed
        elim found [
          | none ↦ ok none
          | some item ↦ ok (if item.uuid =? parsed then some item.uuid else none)
        ]
      | none ↦ elim (split_last b':' name_or_uuid) [
        | none ↦ ok none
        | some (name, arch) ↦ find_uuid name arch
      ]
    ]

  -- What a `SymbolIter` yields from the items that are left, each as `next` gives it: items
  -- without a symbol are passed over, an error is yielded and the iteration goes on.
  unfoldable pub iterate : Uuid → List IndexItem → List (Result Symbol)
  iterate uuid [] = []
  iterate uuid (ii ∷ rest) =
      let others = iterate uuid rest in
      elim (index_item_to_symbol db ii uuid) [
        | ok (some sym) ↦ ok sym ∷ others
        | ok none ↦ others
        | err e ↦ err e ∷ others
        | panic ↦ panic ∷ []
        | undefined ↦ undefined ∷ []
      ]

  unfoldable pub iter_symbols : Uuid → Result (List (Result Symbol))
  iter_symbols uuid = do
    found ← get_index db uuid
    ok (elim found [ none ↦ [] | some items ↦ iterate uuid items ])
