-- ===== src/Memdb/Write/RoundTrip.antt =====
-- src/memdb/write.rs and src/memdb/read.rs: lookups in a file that `flush` wrote.
use symbolserver.Prelude.{
  ltb, false, ◌*◌, ℕ, ◌/◌, ◌^◌, ◌≤◌, ◌<◌, ◌≡◌, inl, inr, refl, sym, ◌∙◌, arith,
}
use symbolserver.Prelude.{true, Option, none, some, List, map, All}
use symbolserver.Prelude.{
  length, get_elem?, get_elem?-lt, get_elem?-map, lt_of_get_elem?, if◌then◌else◌, ◌==◌,
}
use symbolserver.Prelude.{
  All-imp, All-get, All-of_get, any-get, any-of_get, Option-cases, Bool-cases,
}
use symbolserver.Prelude.Order.{◌=?◌, =?_refl, eq_of_=?, nat_ord, list_ord}
use symbolserver.Prelude.Sort.{any-sort_by, sort_by-All}
use symbolserver.Errors.{Str, ok}
use symbolserver.Bytes.{write_all}
use symbolserver.Text.{is_utf8}
use symbolserver.Sdk.{SdkInfo}
use symbolserver.Utils.BinSearch.{index}
use symbolserver.Utils.BinSearch.Laws.{last_le, last_le-All}
use symbolserver.Utils.BinSearch.Sorting.{sort_by-IsSorted}
use symbolserver.Memdb.Types.{
  Uuid, IndexedUuid, IndexItem, StoredSlice, PackedSdkInfo, item_addr, item_sym_id, no_symbol,
  slice_len,
}
use symbolserver.Memdb.Read.{
  MemDb, Symbol, get_string, get_symbol, get_object_name, index_item_to_symbol, item_or_none,
  read_index, read_item, item_size,
}
use symbolserver.Memdb.Lookup.{flatten_ok}
use symbolserver.Memdb.Lookup.Laws.{Holds}
use symbolserver.Memdb.Write.{MemDbBuilder}
use symbolserver.Memdb.Write.Layout.{put_item}
use symbolserver.Memdb.Write.LayoutLaws.{
  IsItem, IsUuid, IsPacked, read_item-put_item, length-put_item, read_back, length-write_all-All,
}
use symbolserver.Memdb.Write.Flush.{sort_uuids}
use symbolserver.Memdb.Write.Pieces.{IsStored, Placed-get}
use symbolserver.Memdb.Write.File.{parts, file_of, file-IsLaidOut}
use symbolserver.Memdb.Write.Tables.{uuids_back, variants_back, symbols_back, object_names_back}
use symbolserver.Memdb.Write.Invariant.{IsKnown, IsWritten}

-- What the builder has under the id of a symbol, if it is one, and the answer for an item.
unfoldable pub item_symbol : MemDbBuilder → Uuid → IndexItem → Option Symbol
item_symbol self uuid item =
    if item.sym_id == no_symbol then none else (elim (get_elem? self.symbols item.sym_id) [
      | none ↦ none
      | some sym ↦ elim (get_elem? self.object_names item.src_id) [
        | none ↦ none
        | some name ↦
            some (record {
              object_uuid = uuid;
              object_name = name;
              symbol = sym;
              addr = item_addr item;
            })
      ]
    ])

-- The answer for an address in the items of a variant: the last item that is not above it.
unfoldable pub symbol_at : MemDbBuilder → Uuid → List IndexItem → ℕ → Option Symbol
symbol_at self uuid items addr = elim (last_le item_addr items addr) [
  | none ↦ none
  | some item ↦ item_symbol self uuid item
]

index_of_get {ℓ} :
    {A : Type ℓ} (xs : List A) (i : ℕ) (a : A) → get_elem? xs i ≡ some a → index xs i ≡ ok a
unfolding index
index_of_get xs i a e = rw (e, index)

module _ (db : MemDb) where
  read_index_stored :
      (v : List IndexItem) (s : StoredSlice)
      → All IsItem v
      → IsStored db.backing (write_all put_item v) s
      → read_index db s ≡ ok v
  unfolding read_index
  read_index_stored v s fit st =
      let back =
        All-imp IsItem (λ x. (length (put_item x) ≡ item_size) × (read_item (put_item x) ≡ x)) v
          (λ x h. (length-put_item x, read_item-put_item x h)) fit in
      let count : slice_len s / item_size ≡ length v =
        omega (arith, st.sized, length-write_all-All put_item read_item item_size v back) in
      let inside : ltb (length (write_all put_item v)) (length v * item_size) ≡ false =
        ground (arith, length-write_all-All put_item read_item item_size v back) in
      rw (st.read, count, inside, read_back put_item read_item item_size v back) refl

  get_string_stored :
      (b : Str) (s : StoredSlice)
      → is_utf8 b ≡ true
      → IsStored db.backing b s
      → get_string db s ≡ ok b
  unfolding get_string
  get_string_stored b s utf8 st = rw (st.read, st.plain, utf8) refl

module _ (self : MemDbBuilder) (packed : PackedSdkInfo) (info : SdkInfo) where
  -- The written file as the reader has it.
  abbrev pub stored : MemDb
  stored = record { info = info; backing = file_of self packed }

  module _ (sized : IsPacked packed) (small : length (file_of self packed) < 2 ^ 31)
      (w : IsWritten self) where
    get_symbol_back :
        (id : ℕ) (s : Str)
        → get_elem? self.symbols id ≡ some s
        → get_symbol stored (some id) ≡ ok (some s)
    unfolding get_symbol
    get_symbol_back id s at =
        let (slice, s_at, st) =
          Placed-get (file_of self packed) self.symbols (parts self).symbol_slices id s small
            (file-IsLaidOut self packed sized).symbols_placed at in
        rw
          (
            symbols_back self packed sized small info,
            index_of_get (parts self).symbol_slices id slice s_at,
            get_string_stored stored s slice
                (All-get (λ t. is_utf8 t ≡ true) self.symbols id s w.symbols_interned.utf8 at) st,
          )
          refl

    get_object_name_back :
        (id : ℕ) (s : Str)
        → get_elem? self.object_names id ≡ some s
        → get_object_name stored id ≡ ok s
    unfolding get_object_name
    get_object_name_back id s at =
        let (slice, s_at, st) =
          Placed-get (file_of self packed) self.object_names (parts self).name_slices id s small
            (file-IsLaidOut self packed sized).names_placed at in
        rw
          (
            object_names_back self packed sized small info,
            index_of_get (parts self).name_slices id slice s_at,
            get_string_stored stored s slice
                (All-get (λ t. is_utf8 t ≡ true) self.object_names id s w.names_interned.utf8 at)
                st,
          )
          refl

    item_symbol_back :
        (uuid : Uuid) (i : IndexItem)
        → IsKnown (length self.object_names) (length self.symbols) i
        → index_item_to_symbol stored i uuid ≡ ok (item_symbol self uuid i)
    unfolding index_item_to_symbol item_symbol item_sym_id get_symbol
    item_symbol_back uuid i k = elim (Bool-cases (i.sym_id == no_symbol)) [
      | inl e ↦ rw (e, item_sym_id, get_symbol, item_symbol) refl
      | inr e ↦
          let lt : i.sym_id < length self.symbols = elim k.sym_known [
            | inl same ↦ absurd (ground arith)
            | inr lt ↦ lt
          ] in
          let (s, s_at) = get_elem?-lt self.symbols i.sym_id lt in
          let (n, n_at) = get_elem?-lt self.object_names i.src_id k.src_known in
          rw (e, get_symbol_back i.sym_id s s_at, get_object_name_back i.src_id n n_at, s_at, n_at)
            refl
    ]

    pub last_le_known :
        (uuid : Uuid) (items : List IndexItem) (addr : ℕ)
        → All (IsKnown (length self.object_names) (length self.symbols)) items
        → flatten_ok (item_or_none stored uuid (last_le item_addr items addr))
          ≡ ok (symbol_at self uuid items addr)
    unfolding symbol_at
    last_le_known uuid items addr known = elim (Option-cases (last_le item_addr items addr)) [
      | inl e ↦ rw (e, symbol_at) refl
      | inr (item, e) ↦
          let k : IsKnown (length self.object_names) (length self.symbols) item =
            last_le-All item_addr (IsKnown (length self.object_names) (length self.symbols)) items
              addr item known e in
          rw (e, symbol_at, item_symbol_back uuid item k) refl
    ]

    pub rows_fit : length self.variants ≤ 2 ^ 16 → All IsUuid self.variant_uuids
    rows_fit few = All-of_get IsUuid self.variant_uuids (λ j f f_at.
        let (idx, sized, seen) = w.rows_indexed j f f_at in
        record {
          sized = sized;
          idx_fits = omega (arith, idx, w.rows_count, lt_of_get_elem? self.variant_uuids j f f_at);
        })

    -- What a row of the UUIDs points to is held by the file.
    pub flush-Holds :
        length self.variants ≤ 2 ^ 16
        → (i : ℕ) (e : IndexedUuid) (items : List IndexItem)
        → get_elem? self.variant_uuids i ≡ some e
        → get_elem? self.variants i ≡ some items
        → Holds stored e.uuid items
    unfolding sort_uuids
    flush-Holds few i e items at items_at =
        let known = All-get _ self.variants i items w.items_known items_at in
        let fit = All-imp (IsKnown _ _) IsItem items (λ x k. k.fits) known in
        let (slice, s_at, st) =
          Placed-get (file_of self packed) (map (write_all put_item) self.variants)
            (parts self).variant_slices i (write_all put_item items) small
            (file-IsLaidOut self packed sized).variants_placed
            (get_elem?-map (write_all put_item) self.variants i items items_at) in
        let table = sort_uuids self.variant_uuids in
        let same : All (λ (f : IndexedUuid). f.uuid ≡ e.uuid → f.idx ≡ i) table =
          sort_by-All _ _ self.variant_uuids (
            All-of_get (λ (f : IndexedUuid). f.uuid ≡ e.uuid → f.idx ≡ i) self.variant_uuids
              (λ j f f_at eq. (w.rows_indexed j f f_at).0 ∙ w.rows_distinct j i f e f_at at eq)) in
        let (j, f, f_at, f_is) =
          any-get (λ (f : IndexedUuid). f.uuid =? e.uuid) table
            (any-sort_by _ (λ (f : IndexedUuid). f.uuid =? e.uuid) self.variant_uuids
              ∙ any-of_get (λ (f : IndexedUuid). f.uuid =? e.uuid) self.variant_uuids i e at
                  (=?_refl e.uuid)) in
        record {
          table = table;
          slices = (parts self).variant_slices;
          uuids_read = uuids_back self packed sized small info (rows_fit few);
          variants_read = variants_back self packed sized small info;
          table_sorted = sort_by-IsSorted (λ (f : IndexedUuid). f.uuid) self.variant_uuids;
          listed = (j, f, f_at, eq_of_=? f.uuid e.uuid f_is);
          rows_read = λ k g g_at eq. (
            slice,
            rw (All-get _ table k g same g_at eq) s_at,
            read_index_stored stored items slice fit st,
          );
          items_sorted = All-get _ self.variants i items w.items_sorted items_at;
        }
