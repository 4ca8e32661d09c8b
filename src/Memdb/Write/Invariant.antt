-- ===== src/Memdb/Write/Invariant.antt =====
-- src/memdb/write.rs: what holds of a `MemDbBuilder` between two calls.
use symbolserver.Prelude.{ℕ, ◌^◌, ◌≤◌, ◌<◌, ◌≡◌, ◌⊎◌}
use symbolserver.Prelude.{true, List, length, get_elem?, All, any, some}
use symbolserver.Prelude.Order.{◌=?◌, nat_ord, list_ord}
use symbolserver.Prelude.Map
use symbolserver.Errors.{Str}
use symbolserver.Text.{is_utf8}
use symbolserver.Utils.BinSearch.Laws.{IsSorted}
use symbolserver.Memdb.Types.{IndexedUuid, IndexItem, item_addr, no_symbol}
use symbolserver.Memdb.Write.{MemDbBuilder}
use symbolserver.Memdb.Write.LayoutLaws.{IsItem}

-- An item whose fields fit and whose ids are given out; the mark for no symbol is an id, too.
pub record IsKnown (names symbols : ℕ) (i : IndexItem) : Type 0 where
  pub fits : IsItem i
  pub src_known : i.src_id < names
  pub sym_known : (i.sym_id ≡ no_symbol) ⊎ (i.sym_id < symbols)

-- Texts that have ids: they are UTF-8, and the map knows the place of each that it has.
pub record IsInterned (texts : List Str) (ids : Map.Map Str ℕ) : Type 0 where
  pub utf8 : All (λ s. is_utf8 s ≡ true) texts
  pub found : (s : Str) (id : ℕ) → Map.get s ids ≡ some id → get_elem? texts id ≡ some s

-- Row `i` of the UUIDs is that of variant `i`, no UUID has two rows and each is marked as seen;
-- the items of each variant are sorted by their addresses; and the mapping has an entry for each
-- object name at least.
pub record IsWritten (b : MemDbBuilder) : Type 0 where
  pub items_known : All (All (IsKnown (length b.object_names) (length b.symbols))) b.variants
  pub items_sorted : All (IsSorted item_addr) b.variants
  pub rows_count : length b.variant_uuids ≡ length b.variants
  pub rows_indexed :
      (i : ℕ) (e : IndexedUuid)
      → get_elem? b.variant_uuids i ≡ some e
      → (e.idx ≡ i)
        × (length e.uuid ≡ 16)
        × (any (λ seen. seen =? e.uuid) b.variant_uuids_seen ≡ true)
  pub rows_distinct :
      (i j : ℕ) (e f : IndexedUuid)
      → get_elem? b.variant_uuids i ≡ some e
      → get_elem? b.variant_uuids j ≡ some f
      → e.uuid ≡ f.uuid
      → i ≡ j
  pub symbols_interned : IsInterned b.symbols b.symbols_map
  pub names_interned : IsInterned b.object_names b.object_names_map
  pub names_mapped : length b.object_names ≤ length b.object_uuid_mapping

-- The counts that the ids and the rows have room for.
pub record IsSmall (b : MemDbBuilder) : Type 0 where
  pub symbols_small : length b.symbols ≤ no_symbol
  pub names_small : length b.object_names ≤ 2 ^ 16
  pub variants_small : length b.variants ≤ 2 ^ 16
