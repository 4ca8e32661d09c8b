-- ===== src/Memdb/Lookup/Safety.antt =====
-- No file, however damaged, makes a lookup by UUID read outside its memory.
use symbolserver.Prelude.{ℕ, ◌/◌, arith}
use symbolserver.Prelude.{Option, none, some, List}
use symbolserver.Prelude.Order.{list_ord, nat_ord}
use symbolserver.Errors.{Result}
use symbolserver.Memdb.Types.{Uuid, IndexedUuid, IndexItem, StoredSlice, item_addr, slice_len}
use symbolserver.Memdb.Read.{
  MemDb, Symbol, get_data, uuids, variants, symbols, object_names, get_index, read_index,
  get_string, get_symbol, get_object_name, index_item_to_symbol, lookup_impl, item_or_none,
  index_of, lookup_in, read_item, item_size,
}
use symbolserver.Memdb.Lookup.{flatten_ok, lookup_by_uuid}
use symbolserver.Memdb.Lookup.Memory.{
  Defined, value, error, panics, >>=-Defined, Yields, >>=-Yields, if-Defined, IsBytes, Checked,
  get_data-Checked, index-Defined, binsearch_by_key-Defined, from_raw_parts-Defined,
  get_slice-Defined, header-IsCounted,
}

module _ (db : MemDb) (bytes : IsBytes db.backing) where
  uuids-Defined : Defined (uuids db)
  unfolding uuids
  uuids-Defined =
      >>=-Yields (header-IsCounted db.backing bytes)
        (λ h counted. get_slice-Defined _ _ _ _ _ bytes (omega arith) counted.uuids)

  variants-Defined : Defined (variants db)
  unfolding variants
  variants-Defined =
      >>=-Yields (header-IsCounted db.backing bytes)
        (λ h counted. get_slice-Defined _ _ _ _ _ bytes (omega arith) counted.variants)

  symbols-Defined : Defined (symbols db)
  unfolding symbols
  symbols-Defined =
      >>=-Yields (header-IsCounted db.backing bytes)
        (λ h counted. get_slice-Defined _ _ _ _ _ bytes (omega arith) counted.symbols)

  object_names-Defined : Defined (object_names db)
  unfolding object_names
  object_names-Defined =
      >>=-Yields (header-IsCounted db.backing bytes)
        (λ h counted. get_slice-Defined _ _ _ _ _ bytes (omega arith) counted.object_names)

  slice_data-Checked :
      (s : StoredSlice)
      → Yields (Checked (slice_len s)) (get_data db.backing s.offset (slice_len s))
  unfolding slice_len
  slice_data-Checked s = get_data-Checked db.backing s.offset (slice_len s) bytes (omega arith)

  read_index-Defined : (s : StoredSlice) → Defined (read_index db s)
  unfolding read_index
  read_index-Defined s = >>=-Yields (slice_data-Checked s) (λ bs (sized, _).
      from_raw_parts-Defined read_item item_size bs (slice_len s / item_size)
        (omega (arith, sized)))

  get_string-Defined : (s : StoredSlice) → Defined (get_string db s)
  unfolding get_string
  get_string-Defined s =
      >>=-Yields (slice_data-Checked s)
        (λ bs _. if-Defined _ panics (if-Defined _ (value _) (error _)))

  get_object_name-Defined : (i : ℕ) → Defined (get_object_name db i)
  unfolding get_object_name
  get_object_name-Defined i =
      >>=-Defined object_names-Defined (λ t. >>=-Defined (index-Defined t i) get_string-Defined)

  get_symbol-Defined : (s : Option ℕ) → Defined (get_symbol db s)
  unfolding get_symbol
  get_symbol-Defined none = value none
  get_symbol-Defined (some i) = >>=-Defined symbols-Defined (λ t.
      >>=-Defined (index-Defined t i) (λ s. >>=-Defined (get_string-Defined s) (λ _. value _)))

  pub index_item_to_symbol-Defined :
      (ii : IndexItem) (uuid : Uuid) → Defined (index_item_to_symbol db ii uuid)
  unfolding index_item_to_symbol
  index_item_to_symbol-Defined ii uuid =
      >>=-Defined (get_symbol-Defined _) (elim [
        | none ↦ value none
        | some s ↦ >>=-Defined (get_object_name-Defined _) (λ _. value _)
      ])

  index_of-Defined : (uuid : Uuid) (found : Option IndexedUuid) → Defined (index_of db uuid found)
  unfolding index_of
  index_of-Defined uuid none = value none
  index_of-Defined uuid (some i) = if-Defined _ (value none) (
      >>=-Defined variants-Defined (λ t.
        >>=-Defined (index-Defined t _) (λ s. >>=-Defined (read_index-Defined s) (λ _. value _))))

  get_index-Defined : (uuid : Uuid) → Defined (get_index db uuid)
  unfolding get_index
  get_index-Defined uuid =
      >>=-Defined uuids-Defined
        (λ t. >>=-Defined (binsearch_by_key-Defined _ t uuid) (index_of-Defined uuid))

  item_or_none-Defined : (uuid : Uuid) (o : Option IndexItem) → Defined (item_or_none db uuid o)
  item_or_none-Defined uuid none = value none
  item_or_none-Defined uuid (some item) = index_item_to_symbol-Defined item uuid

  lookup_in-Defined :
      (uuid : Uuid) (addr : ℕ) (found : Option (List IndexItem))
      → Defined (lookup_in db uuid addr found)
  unfolding lookup_in
  lookup_in-Defined uuid addr none = value none
  lookup_in-Defined uuid addr (some items) =
      >>=-Defined (binsearch_by_key-Defined item_addr items addr) (item_or_none-Defined uuid)

  lookup_impl-Defined : (uuid : Uuid) (addr : ℕ) → Defined (lookup_impl db uuid addr)
  unfolding lookup_impl
  lookup_impl-Defined uuid addr = >>=-Defined (get_index-Defined uuid) (lookup_in-Defined uuid addr)

  flatten_ok-Defined : {m : Result (Option Symbol)} → Defined m → Defined (flatten_ok m)
  flatten_ok-Defined (value a) = value a
  flatten_ok-Defined (error e) = value none
  flatten_ok-Defined panics = panics

  -- Whatever bytes a file has, a lookup by UUID is defined: the header and the records of each
  -- table that it reads through raw pointers take no more bytes than were checked. It ends in an
  -- answer or in a panic of a checked index.
  pub lookup_by_uuid-Defined : (uuid : Uuid) (addr : ℕ) → Defined (lookup_by_uuid db uuid addr)
  unfolding lookup_by_uuid
  lookup_by_uuid-Defined uuid addr = flatten_ok-Defined (lookup_impl-Defined uuid addr)
