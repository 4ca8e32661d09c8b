-- ===== src/Memdb/Write/Lookups.antt =====
-- src/memdb/write.rs and src/memdb/read.rs: `flush` returns, and its file loads and answers.
use symbolserver.Prelude.{ℕ, ◌^◌, ◌≤◌, ◌<◌, ◌≡◌, refl, ap, sym, ◌∙◌, arith}
use symbolserver.Prelude.{false, none, some, List, All, any}
use symbolserver.Prelude.{length, get_elem?, if◌then◌else◌}
use symbolserver.Prelude.{All-imp, All-get, any-of_get}
use symbolserver.Prelude.Order.{◌=?◌, =?_refl, nat_ord, list_ord}
use symbolserver.Prelude.Sort.{any-sort_by}
use symbolserver.Errors.{ok, ◌>>=◌}
use symbolserver.Bytes.{Bytes}
use symbolserver.Memdb.Types.{Uuid, IndexedUuid, IndexItem, PackedSdkInfo}
use symbolserver.Memdb.Read.{MemDb}
use symbolserver.Memdb.Lookup.{lookup_by_uuid}
use symbolserver.Memdb.Lookup.Laws.{lookup_by_uuid-Holds}
use symbolserver.Memdb.Write.{MemDbBuilder}
use symbolserver.Memdb.Write.LayoutLaws.{IsPacked}
use symbolserver.Memdb.Write.Flush.{sort_uuids}
use symbolserver.Memdb.Write.File.{parts, file_of}
use symbolserver.Memdb.Write.Tables.{uuids_back}
use symbolserver.Memdb.Write.Invariant.{IsWritten}
use symbolserver.Memdb.Types.{set_from_sdk_info, to_sdk_info}
use symbolserver.Memdb.Types.Laws.{default_packed, IsPackable, packed_info}
use symbolserver.Memdb.Read.{load_memdb}
use symbolserver.Memdb.Write.Tables.{header_back}
use symbolserver.Memdb.Write.Flush.{flush, header_of}
use symbolserver.Memdb.Write.Pieces.{put_variants_ok}
use symbolserver.Memdb.Write.RoundTrip.{stored, symbol_at, flush-Holds, rows_fit, last_le_known}
use symbolserver.Memdb.Lookup.Laws.{lookup_by_uuid-absent}

module _ (xz : Bytes → Bytes) (self : MemDbBuilder) (w : IsWritten self) where
  flush_lem :
      (packed : PackedSdkInfo)
      → set_from_sdk_info default_packed self.info ≡ ok packed
      → flush xz self ≡ ok (if self.compress then xz (file_of self packed) else file_of self packed)
  unfolding flush file_of parts
  flush_lem packed e =
      let mapped =
        All-imp _ (All (λ (i : IndexItem). i.src_id < length self.object_uuid_mapping))
          self.variants
          (λ v known. All-imp _ _ v (λ i k. omega (arith, k.src_known, w.names_mapped)) known)
          w.items_known in
      rw (e, put_variants_ok self.object_uuid_mapping _ self.variants mapped) refl

  module _ (p : IsPackable self.info) where
    -- Writing returns a file, without a panic, whenever the description of the SDK fits its record.
    pub flush_total : (file : Bytes) × (flush xz self ≡ ok file)
    flush_total = let (packed, h) = packed_info self.info p in (_, flush_lem packed h.packed)

    -- The packed description and the file of a run of `flush` without compression.
    module _ (file : Bytes) (plain : self.compress ≡ false) (written : flush xz self ≡ ok file)
        (small : length file < 2 ^ 31) where
      record Output : Type 0 where
        packed : PackedSdkInfo
        back : to_sdk_info packed ≡ ok self.info
        sized : IsPacked packed
        is_file : file_of self packed ≡ file

      output : Output
      output =
          let (packed, h) = packed_info self.info p in
          let e : flush xz self ≡ ok (file_of self packed) =
            rw (flush_lem packed h.packed, plain) refl in
          record {
            packed = packed;
            back = h.back;
            sized = record {
              name_sized = h.name_sized;
              build_sized = h.build_sized;
              major_fits = h.major_fits;
              minor_fits = h.minor_fits;
              patchlevel_fits = h.patchlevel_fits;
            };
            is_file = cc (e, written);
          }

      output_small : length (file_of self output.packed) < 2 ^ 31
      output_small = omega (arith, ap length output.is_file)

      abbrev loaded : MemDb
      loaded = record { info = self.info; backing = file }

      stored_lem : stored self output.packed self.info ≡ loaded
      stored_lem = λ i. record { info = self.info; backing = output.is_file i }

      -- A file below 2 GiB that `flush` wrote without compression loads, with the description of the
      -- SDK that was written, if the builder is well formed and the description fits its record.
      pub load_memdb-flush : load_memdb file ≡ ok loaded
      unfolding load_memdb header_of
      load_memdb-flush =
          rw
            (
              ← output.is_file,
              header_back self output.packed output.sized output_small,
              output.back,
            )
            refl

      -- In a file that `flush` wrote, a lookup of a variant's UUID answers with the symbol that the
      -- builder has for the last item of the variant that is not above the address.
      pub lookup_by_uuid-flush :
          length self.variants ≤ 2 ^ 16
          → (i : ℕ) (e : IndexedUuid) (items : List IndexItem) (addr : ℕ)
          → get_elem? self.variant_uuids i ≡ some e
          → get_elem? self.variants i ≡ some items
          → (load_memdb file >>= λ db. lookup_by_uuid db e.uuid addr)
            ≡ ok (symbol_at self e.uuid items addr)
      lookup_by_uuid-flush few i e items addr at items_at = rw load_memdb-flush (
          ap (λ db. lookup_by_uuid db e.uuid addr) (sym stored_lem)
          ∙ (lookup_by_uuid-Holds (stored self output.packed self.info) e.uuid
                (flush-Holds self output.packed self.info output.sized output_small w few i e items
                  at items_at)
                addr
              ∙ last_le_known self output.packed self.info output.sized output_small w e.uuid items
                  addr (All-get _ self.variants i items w.items_known items_at)))

      -- In a file that `flush` wrote, a lookup of a UUID without a row finds nothing. Conditions:
      -- those of load_memdb-flush, and at most 65536 variants.
      pub lookup_by_uuid-flush_absent :
          length self.variants ≤ 2 ^ 16
          → (uuid : Uuid) (addr : ℕ)
          → any (λ (e : IndexedUuid). e.uuid =? uuid) self.variant_uuids ≡ false
          → (load_memdb file >>= λ db. lookup_by_uuid db uuid addr) ≡ ok none
      unfolding sort_uuids
      lookup_by_uuid-flush_absent few uuid addr absent = rw load_memdb-flush (
          ap (λ db. lookup_by_uuid db uuid addr) (sym stored_lem)
          ∙ lookup_by_uuid-absent (stored self output.packed self.info) uuid addr
              (uuids_back self output.packed output.sized output_small self.info
                (rows_fit self output.packed self.info output.sized output_small w few))
              (λ i e at same.
                let found =
                  any-of_get (λ (f : IndexedUuid). f.uuid =? uuid) (sort_uuids self.variant_uuids) i
                    e at (ap (λ u. u =? uuid) same ∙ =?_refl uuid) in
                absurd (
                  cc (
                    found,
                    absent,
                    any-sort_by (λ a b. list_ord.cmp a.uuid b.uuid)
                        (λ (f : IndexedUuid). f.uuid =? uuid) self.variant_uuids,
                  ))))
