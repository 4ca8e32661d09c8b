-- ===== src/Memdb/Lookup/Laws.antt =====
-- What a lookup answers, and what it does on files that are not well formed.
use symbolserver.Prelude.{ℕ, ◌+◌, ◌-◌, ◌%◌, ◌^◌, ◌≤◌, ◌<◌, ◌≡◌, ◌≢◌, refl}
use native.Mathlib.Decide.{dec_le}
use symbolserver.Prelude.{true, Option, none, some, List}
use symbolserver.Prelude.{arith, length, Bool-cases, inl, inr, get_elem?, ◌⊎◌, get_elem?, ◌∙◌, ap}
use symbolserver.Prelude.Order.{◌=?◌, =?_refl, eq_of_=?, list_ord, nat_ord}
use symbolserver.Errors.{ok, err, bad_memdb}
use symbolserver.Bytes.{Bytes, window}
use symbolserver.Utils.BinSearch.{index, binsearch_by_key}
use symbolserver.Utils.BinSearch.Laws.{
  IsSorted, last_le, last_le_complete, binsearch_by_key-eq-last_le, binsearch_by_key_total,
}
use symbolserver.Memdb.Types.{Uuid, IndexedUuid, IndexItem, StoredSlice, item_addr}
use symbolserver.Memdb.Read.{
  MemDb, get_data, index_of, lookup_in, uuids, variants, get_index, read_index, lookup_impl,
  item_or_none,
}
use symbolserver.Memdb.Lookup.{flatten_ok, lookup_by_uuid}

-- For a file, a start and a length below 2^64: a read that lies in the file answers with that part
-- of it, and any other fails as a bad memdb.
pub get_data_exact :
    (buffer : Bytes) (start len : ℕ)
    → length buffer < 2 ^ 64
    → start < 2 ^ 64
    → len < 2 ^ 64
    → ((start + len ≤ length buffer) × (get_data buffer start len ≡ ok (window start len buffer)))
      ⊎ ((length buffer < start + len) × (get_data buffer start len ≡ err bad_memdb))
unfolding get_data
get_data_exact buffer start len h k l = elim (dec_le (start + len) (length buffer)) [
  | yes p ↦
      let e : (start + len) % 2 ^ 64 ≡ start + len = omega arith in
      let d : start + len - start ≡ len = omega arith in inl (p, rw (e, d) (ground arith))
  | no p ↦ inr (omega arith, ground arith)
]

-- What the file holds for a UUID: a row of the UUID table with it, the slice that the row points
-- to, and the items that the slice covers. Both tables are sorted by their keys.
pub record Holds (db : MemDb) (uuid : Uuid) (items : List IndexItem) : Type 0 where
  pub table : List IndexedUuid
  pub slices : List StoredSlice
  pub uuids_read : uuids db ≡ ok table
  pub variants_read : variants db ≡ ok slices
  pub table_sorted : IsSorted (λ (i : IndexedUuid). i.uuid) table
  pub listed : (i : ℕ) × (e : IndexedUuid) × (get_elem? table i ≡ some e) × (e.uuid ≡ uuid)
  pub rows_read :
      (i : ℕ) (e : IndexedUuid)
      → get_elem? table i ≡ some e
      → e.uuid ≡ uuid
      → (s : StoredSlice) × (get_elem? slices e.idx ≡ some s) × (read_index db s ≡ ok items)
  pub items_sorted : IsSorted item_addr items

module _ (db : MemDb) (uuid : Uuid) where
  index_lem {ℓ} :
      {A : Type ℓ} (xs : List A) (i : ℕ) (a : A) → get_elem? xs i ≡ some a → index xs i ≡ ok a
  unfolding index
  index_lem xs i a e = rw (e, index)

  get_index_absent :
      {table : List IndexedUuid}
      → uuids db ≡ ok table
      → ((i : ℕ) (e : IndexedUuid) → get_elem? table i ≡ some e → e.uuid ≢ uuid)
      → get_index db uuid ≡ ok none
  unfolding get_index index_of
  get_index_absent {table} read absent =
      let (r, b, where_from) = binsearch_by_key_total (λ (i : IndexedUuid). i.uuid) table uuid in
      rw (read, b) (go r where_from)
    where
      go :
          (r : Option IndexedUuid)
          → (r ≡ none) ⊎ ((i : ℕ) × (i < length table) × (get_elem? table i ≡ r))
          → index_of db uuid r ≡ ok none
      go none h = refl
      go (some e) (inl h) = cc
      go (some e) (inr (i, lt, at)) = elim (Bool-cases (e.uuid =? uuid)) [
        | inl same ↦ absurd (absent i e at (eq_of_=? e.uuid uuid same))
        | inr differ ↦ rw differ
      ]

  index_of-exact :
      (e : IndexedUuid) (s : StoredSlice) {slices : List StoredSlice} {items : List IndexItem}
      → e.uuid ≡ uuid
      → variants db ≡ ok slices
      → get_elem? slices e.idx ≡ some s
      → read_index db s ≡ ok items
      → index_of db uuid (some e) ≡ ok (some items)
  unfolding index_of
  index_of-exact e s same vs at items =
      let exact : (e.uuid =? uuid) ≡ true = rw same (=?_refl uuid) in
      rw (exact, vs, index_lem _ _ s at, items)

  module _ {items : List IndexItem} (h : Holds db uuid items) where
    get_index-Holds : get_index db uuid ≡ ok (some items)
    unfolding get_index
    get_index-Holds =
        let (r, b, where_from) =
          binsearch_by_key_total (λ (i : IndexedUuid). i.uuid) h.table uuid in
        let (j, y, at, y_same) = h.listed in
        let (x, last, same) =
          last_le_complete (λ (i : IndexedUuid). i.uuid) h.table uuid j y h.table_sorted at
            y_same in
        let found : binsearch_by_key (λ (i : IndexedUuid). i.uuid) h.table uuid ≡ ok (some x) =
          binsearch_by_key-eq-last_le (λ (i : IndexedUuid). i.uuid) h.table uuid h.table_sorted
          ∙ ap ok last in
        let is_x : r ≡ some x = cc (b, found) in
        rw (h.uuids_read, found) (row x same (rw is_x at where_from))
      where
        row :
            (x : IndexedUuid)
            → x.uuid ≡ uuid
            → (some x ≡ none) ⊎ ((i : ℕ) × (i < length h.table) × (get_elem? h.table i ≡ some x))
            → index_of db uuid (some x) ≡ ok (some items)
        row x same (inl e) = cc
        row x same (inr (i, lt, at)) =
            let (s, s_at, read) = h.rows_read i x at same in
            index_of-exact x s same h.variants_read s_at read

    -- A UUID that the file holds is looked up at the last of its items whose address is not above
    -- the one asked for: the answer is that item's symbol. There is none if every item lies above
    -- or if the item is an end marker, and also if its strings cannot be read.
    pub lookup_by_uuid-Holds :
        (addr : ℕ)
        → lookup_by_uuid db uuid addr
          ≡ flatten_ok (item_or_none db uuid (last_le item_addr items addr))
    unfolding lookup_by_uuid lookup_impl lookup_in
    lookup_by_uuid-Holds addr =
        rw (get_index-Holds, binsearch_by_key-eq-last_le item_addr items addr h.items_sorted)

  -- A UUID that no row of the table has finds nothing, whatever the order of the table.
  pub lookup_by_uuid-absent :
      {table : List IndexedUuid} (addr : ℕ)
      → uuids db ≡ ok table
      → ((i : ℕ) (e : IndexedUuid) → get_elem? table i ≡ some e → e.uuid ≢ uuid)
      → lookup_by_uuid db uuid addr ≡ ok none
  unfolding lookup_by_uuid lookup_impl lookup_in
  lookup_by_uuid-absent addr read absent = rw (get_index_absent read absent)
