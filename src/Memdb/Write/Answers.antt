-- ===== src/Memdb/Write/Answers.antt =====
-- src/memdb/write.rs and src/memdb/read.rs: from the objects of an SDK to the answers of a lookup.
use symbolserver.Prelude.{ℕ, ◌^◌, ◌<◌, ◌≡◌, refl}
use symbolserver.Prelude.{Bool, false, some, List, length, get_elem?, All}
use symbolserver.Errors.{Str, Result, ok, ◌>>=◌}
use symbolserver.Bytes.{Bytes}
use symbolserver.Sdk.{SdkInfo}
use symbolserver.Dsym.{MachObject, Object}
use symbolserver.Memdb.Types.{IndexedUuid, IndexItem}
use symbolserver.Memdb.Types.Laws.{IsPackable}
use symbolserver.Memdb.Read.{load_memdb}
use symbolserver.Memdb.Lookup.{lookup_by_uuid}
use symbolserver.Memdb.Write.{MemDbBuilder, new_builder}
use symbolserver.Memdb.Write.Flush.{flush, write_objects, dump_memdb}
use symbolserver.Memdb.Write.Invariant.{IsSmall}
use symbolserver.Memdb.Write.RoundTrip.{symbol_at}
use symbolserver.Memdb.Write.Lookups.{flush_total, lookup_by_uuid-flush}
use symbolserver.Memdb.Write.Dump.{HasTexts, IsEntry, write_objects-Kept, write_objects-IsWritten}

module _ (lib : MachObject) (lib_texts : HasTexts lib) (xz : Bytes → Bytes) (info : SdkInfo)
    (objects : List (Result (Str × Object))) (self : MemDbBuilder) (entries : All IsEntry objects)
    (small : IsSmall self) (packable : IsPackable info) where
  -- A dump returns a file, without a panic, if the objects can be written to a builder, its ids and
  -- rows have room, the texts are UTF-8, UUIDs have 16 bytes, and the description of the SDK fits
  -- its record.
  pub dump_memdb_total :
      (compress : Bool)
      → write_objects lib objects (new_builder info compress) ≡ ok self
      → (file : Bytes) × (dump_memdb lib xz info compress objects ≡ ok file)
  unfolding dump_memdb
  dump_memdb_total compress run =
      let w = write_objects-IsWritten lib lib_texts info compress objects self entries run small in
      let k =
        write_objects-Kept lib lib_texts objects (new_builder info compress) self entries run in
      let (file, e) = flush_total xz self w (rw k.same_info packable) in (file, rw (run, e) refl)

  -- What a dump without compression wrote loads, and a lookup of the UUID of any row answers with
  -- the symbol of the last of its variant's items that is not above the address, or with nothing.
  -- Conditions: those of dump_memdb_total, and a file below 2 GiB.
  pub lookup_by_uuid-dump_memdb :
      (file : Bytes) (i : ℕ) (e : IndexedUuid) (items : List IndexItem) (addr : ℕ)
      → write_objects lib objects (new_builder info false) ≡ ok self
      → dump_memdb lib xz info false objects ≡ ok file
      → length file < 2 ^ 31
      → get_elem? self.variant_uuids i ≡ some e
      → get_elem? self.variants i ≡ some items
      → (load_memdb file >>= λ db. lookup_by_uuid db e.uuid addr)
        ≡ ok (symbol_at self e.uuid items addr)
  unfolding dump_memdb
  lookup_by_uuid-dump_memdb file i e items addr run dumped fits at items_at =
      let w = write_objects-IsWritten lib lib_texts info false objects self entries run small in
      let k = write_objects-Kept lib lib_texts objects (new_builder info false) self entries run in
      let written : flush xz self ≡ ok file = rw run at dumped in
      lookup_by_uuid-flush xz self w (rw k.same_info packable) file k.same_compress written fits
        small.variants_small i e items addr at items_at
