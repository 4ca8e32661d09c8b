-- ===== src/Tests/Lookup.antt =====
-- A memdb file of one object with two symbols and an end marker, written out by hand.
use symbolserver.Prelude.{ℕ, zero, suc, ◌≡◌, refl, ◌≢◌, Option, none, some, List, [], ◌∷◌, ◌++◌}
use symbolserver.Prelude.{true, all, ltb, take, arith, get_elem?, replicate, ◌<◌, ◌≤◌, ◌+◌, ◌⊎◌}
use mathlib.Core.Option.{some-injective}
use symbolserver.Errors.{Result, ok, err, bad_memdb}
use symbolserver.Bytes.{Bytes, le_bytes, of_le, records, window}
use symbolserver.Text.{codes, is_utf8, trim_zeros}
use symbolserver.Utils.BinSearch.{binsearch_by_key, index}
use symbolserver.Utils.BinSearch.Laws.{last_le, ascending, ascending-IsSorted}
use symbolserver.Prelude.Order.{nat_ord, list_ord}
use symbolserver.Memdb.Types.{
  Uuid, IndexedUuid, StoredSlice, IndexItem, slice_len, is_compressed, item_addr, item_sym_id,
  to_sdk_info, str_from_zero_slice,
}
use symbolserver.Memdb.Read.{
  MemDb, Symbol, load_memdb, get_data, header, read_header, read_packed, read_slice, read_uuid,
  read_item, get_slice, uuids, variants, symbols, object_names, read_index, index_of, get_index,
  get_string, get_object_name, get_symbol, index_item_to_symbol, item_or_none, lookup_in,
  lookup_impl,
}
use symbolserver.Memdb.Lookup.{flatten_ok, lookup_by_uuid}
use symbolserver.Memdb.Lookup.Laws.{
  get_data_exact, Holds, lookup_by_uuid-Holds, lookup_by_uuid-absent,
}
use symbolserver.Memdb.Lookup.Memory.{Defined, IsBytes}
use symbolserver.Memdb.Lookup.Safety.{lookup_by_uuid-Defined}

u32 : ℕ → Bytes
unfolding le_bytes
u32 n = le_bytes 4 n

u16 : ℕ → Bytes
unfolding le_bytes
u16 n = le_bytes 2 n

abbrev pub uuid : Uuid
uuid = replicate 16 7

abbrev other : Uuid
other = replicate 16 9

item : ℕ → ℕ → Bytes
unfolding u32 u16
item addr sym = u32 addr ++ (u16 0 ++ (u16 0 ++ u32 sym))

slice : ℕ → ℕ → Bytes
unfolding u32
slice offset len = u32 offset ++ u32 len

pub file : Bytes
unfolding u32 u16 item slice
file =
    u32 2
    ++ (replicate 40 0
        ++ (u32 120
            ++ (u32 1
                ++ (u32 128
                    ++ (u32 1
                        ++ (u32 146
                            ++ (u32 150
                                ++ (u32 151
                                    ++ (u32 1
                                        ++ (u32 161
                                            ++ (u32 2
                                                ++ (item 16 0
                                                    ++ (item 32 1
                                                        ++ (item 48 4294967295
                                                            ++ (slice 84 36
                                                            ++ (uuid
                                                            ++ (u16 0
                                                            ++ (codes "o:a"
                                                            ++ (0 ∷ []
                                                            ++ (codes "o"
                                                            ++ (slice 150 1
                                                            ++ (codes "fg"
                                                            ++ (slice 159 1
                                                            ++ slice 160 1)))))))))))))))))))))))

abbrev pub db : MemDb
db = record {
  info = record {
    name = [];
    version_major = 0;
    version_minor = 0;
    version_patchlevel = 0;
    build = none;
  };
  backing = file;
}

abbrev items : List IndexItem
items =
    record { addr_low = 16; addr_high = 0; src_id = 0; sym_id = 0 }
    ∷ record { addr_low = 32; addr_high = 0; src_id = 0; sym_id = 1 }
    ∷ record { addr_low = 48; addr_high = 0; src_id = 0; sym_id = 4294967295 }
    ∷ []

abbrev table : List IndexedUuid
table = record { uuid = uuid; idx = 0 } ∷ []

-- Reads and lookups with every part open, for runs.
run : Uuid → ℕ → Result (Option Symbol)
unfolding lookup_by_uuid lookup_impl lookup_in get_index index_of binsearch_by_key index uuids
    variants symbols object_names read_index get_string get_object_name get_symbol
    index_item_to_symbol get_slice get_data header read_header read_packed read_slice read_uuid
    read_item of_le records slice_len is_compressed item_addr item_sym_id is_utf8 file
run u addr = lookup_by_uuid db u addr

-- An address inside the second symbol.
run_inside :
    run uuid 40
    ≡ ok (
        some
          (record { object_uuid = uuid; object_name = codes "o"; symbol = codes "g"; addr = 32 }))
unfolding run
run_inside = refl

pub inside :
    lookup_by_uuid db uuid 40
    ≡ ok (
        some
          (record { object_uuid = uuid; object_name = codes "o"; symbol = codes "g"; addr = 32 }))
unfolding run
inside = run_inside

-- The file itself loads.
pub loads : load_memdb db.backing ≡ ok db
unfolding load_memdb header get_data read_header read_packed of_le file u32 u16 item slice le_bytes
    to_sdk_info str_from_zero_slice trim_zeros is_utf8
loads = refl

-- Before the first symbol, and past the end marker.
run_outside : (run uuid 8 ≡ ok none) × (run uuid 50 ≡ ok none)
unfolding run
run_outside = (refl, refl)

db-Holds : Holds db uuid items
unfolding run ascending
db-Holds = record {
  table = table;
  slices = record { offset = 84; len = 36 } ∷ [];
  uuids_read = refl;
  variants_read = refl;
  table_sorted = ascending-IsSorted (λ (i : IndexedUuid). i.uuid) table refl;
  listed = (0, record { uuid = uuid; idx = 0 }, refl, refl);
  rows_read = rows;
  items_sorted = ascending-IsSorted item_addr items refl;
}
  where
    rows :
        (i : ℕ) (e : IndexedUuid)
        → get_elem? table i ≡ some e
        → e.uuid ≡ uuid
        → (s : StoredSlice) × (get_elem? (record { offset = 84; len = 36 } ∷ []) e.idx ≡ some s)
          × (read_index db s ≡ ok items)
    rows zero e at same = (
      record { offset = 84; len = 36 },
      rw (← some-injective (record { uuid = uuid; idx = 0 }) e at),
      refl,
    )
    rows (suc i) e at same = cc

lookup_by_uuid-Holds_example :
    lookup_by_uuid db uuid 40 ≡ flatten_ok (item_or_none db uuid (last_le item_addr items 40))
lookup_by_uuid-Holds_example = lookup_by_uuid-Holds db uuid db-Holds 40

others : (i : ℕ) (e : IndexedUuid) → get_elem? table i ≡ some e → e.uuid ≢ other
others zero e at = rw (← some-injective (record { uuid = uuid; idx = 0 }) e at) (ground arith)
others (suc i) e at = cc

table_read : uuids db ≡ ok table
unfolding run
table_read = refl

lookup_by_uuid-absent_example : lookup_by_uuid db other 40 ≡ ok none
lookup_by_uuid-absent_example = lookup_by_uuid-absent db other 40 table_read others

-- The file without its end.
abbrev damaged : MemDb
damaged = record db { backing = take 140 db.backing }

all-IsBytes : (bs : Bytes) → all (λ b. ltb b 256) bs ≡ true → IsBytes bs
all-IsBytes [] h = tt
all-IsBytes (b ∷ bs) h = (ground arith, all-IsBytes bs (ground arith))

damaged-IsBytes : IsBytes damaged.backing
unfolding run
damaged-IsBytes = all-IsBytes damaged.backing refl

lookup_by_uuid-Defined_example : Defined (lookup_by_uuid damaged uuid 40)
lookup_by_uuid-Defined_example = lookup_by_uuid-Defined damaged damaged-IsBytes uuid 40

get_data_exact_example :
    ((2 + 3 ≤ 4) × (get_data (codes "abcd") 2 3 ≡ ok (window 2 3 (codes "abcd"))))
    ⊎ ((4 < 2 + 3) × (get_data (codes "abcd") 2 3 ≡ err bad_memdb))
get_data_exact_example = get_data_exact (codes "abcd") 2 3 (omega arith) (omega arith) (omega arith)
