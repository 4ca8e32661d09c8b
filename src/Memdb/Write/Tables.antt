-- ===== src/Memdb/Write/Tables.antt =====
-- src/memdb/write.rs: the reader finds the tables that `flush` wrote.
use symbolserver.Prelude.{ℕ, false, ltb, ◌%◌, ◌*◌, ◌^◌, ◌≤◌, ◌<◌, ◌≡◌, refl, ap, sym, ◌∙◌, arith}
use symbolserver.Prelude.{List, [], All}
use symbolserver.Prelude.{length, drop}
use symbolserver.Errors.{ok}
use symbolserver.Bytes.{Bytes, write_all}
use symbolserver.Prelude.{All-imp}
use symbolserver.Sdk.{SdkInfo}
use symbolserver.Memdb.Types.{StoredSlice, PackedSdkInfo, as_u32}
use symbolserver.Memdb.Read.{
  MemDb, get_data, get_slice, header, header_size, uuids, variants, symbols, object_names,
  read_slice, slice_size, read_uuid, uuid_size,
}
use symbolserver.Memdb.Write.{MemDbBuilder}
use symbolserver.Memdb.Write.Layout.{put_header, put_slice, put_uuid}
use symbolserver.Memdb.Write.LayoutLaws.{
  IsSlice, IsUuid, IsPacked, IsHeader, read_header-put_header, read_back, length-write_all-All,
  read_slice-put_slice, length-put_slice, read_uuid-put_uuid, length-put_uuid,
}
use symbolserver.Memdb.Write.Region.{At, At-le, At-get_data}
use symbolserver.Memdb.Write.Flush.{sort_uuids, header_of, rewrite_header}
use symbolserver.Memdb.Write.Pieces.{Placed-IsSlice}
use symbolserver.Prelude.Sort.{length-sort_by, sort_by-All}
use symbolserver.Prelude.Order.{nat_ord, list_ord}
use symbolserver.Memdb.Write.File.{parts, file_of, header_sized, file-IsLaidOut}

-- A table of fixed-size records is read from the start and the count of its header.
table_read :
    {A : Type 0} (put : A → Bytes) (get : Bytes → A) (size : ℕ) (file : Bytes) (s : ℕ) (xs : List A)
    → 0 < size
    → length file < 2 ^ 31
    → All (λ x. (length (put x) ≡ size) × (get (put x) ≡ x)) xs
    → At file s (write_all put xs)
    → get_slice get size file (as_u32 s) (as_u32 (length xs)) ≡ ok xs
unfolding get_slice
table_read put get size file s xs pos small back at =
    let total : length (write_all put xs) ≡ length xs * size =
      length-write_all-All put get size xs back in
    let le = At-le at in
    let count : length xs ≤ length xs * size = grind arith in
    let s' : as_u32 s ≡ s = omega arith in
    let n' : as_u32 (length xs) ≡ length xs = omega arith in
    let data_ : get_data file s (length xs * size) ≡ ok (write_all put xs) =
      rw (← total) (At-get_data (omega arith) at) in
    let whole : length xs * size % 2 ^ 64 ≡ length xs * size = omega arith in
    let inside : ltb (length (write_all put xs)) (length xs * size) ≡ false =
      ground (arith, total) in
    rw (s', n', whole, data_, inside, read_back put get size xs back) refl

module _ (self : MemDbBuilder) (packed : PackedSdkInfo) (sized : IsPacked packed)
    (small : length (file_of self packed) < 2 ^ 31) where
  header_of-IsHeader : IsHeader (header_of self packed (parts self))
  unfolding header_of
  header_of-IsHeader = record {
    version_fits = omega arith;
    packed = sized;
    variants_start_fits = omega arith;
    variants_count_fits = omega arith;
    uuids_start_fits = omega arith;
    uuids_count_fits = omega arith;
    tagged_object_names_start_fits = omega arith;
    tagged_object_names_end_fits = omega arith;
    object_names_start_fits = omega arith;
    object_names_count_fits = omega arith;
    symbols_start_fits = omega arith;
    symbols_count_fits = omega arith;
  }

  header_of-At : At (file_of self packed) 0 (put_header (header_of self packed (parts self)))
  unfolding file_of rewrite_header
  header_of-At = record {
    before = [];
    behind = drop header_size (parts self).symbols_index;
    whole = refl;
    offset = refl;
  }

  -- The header comes back.
  pub header_back : header (file_of self packed) ≡ ok (header_of self packed (parts self))
  unfolding header
  header_back =
      let read : get_data (file_of self packed) 0 header_size
          ≡ ok (put_header (header_of self packed (parts self))) =
        ap (λ n. get_data (file_of self packed) 0 n) (sym (header_sized self packed sized))
        ∙ At-get_data (omega arith) header_of-At in
      let inside : ltb (length (put_header (header_of self packed (parts self)))) header_size
          ≡ false =
        ground (arith, header_sized self packed sized) in
      rw (read, inside)
        (ap ok (read_header-put_header (header_of self packed (parts self)) header_of-IsHeader))

  slices_back :
      (slices : List StoredSlice)
      → All IsSlice slices
      → All (λ x. (length (put_slice x) ≡ slice_size) × (read_slice (put_slice x) ≡ x)) slices
  slices_back slices h =
      All-imp IsSlice _ slices (λ s k. (length-put_slice s, read_slice-put_slice s k)) h

  module _ (info : SdkInfo) where
    abbrev db : MemDb
    db = record { info = info; backing = file_of self packed }

    pub variants_back : variants db ≡ ok (parts self).variant_slices
    unfolding variants header_of
    variants_back = rw header_back (
        table_read put_slice read_slice slice_size (file_of self packed)
          (length (parts self).variants_end) (parts self).variant_slices (omega arith) small
          (slices_back _ (
            Placed-IsSlice (file_of self packed) _ (parts self).variant_slices small
              (file-IsLaidOut self packed sized).variants_placed))
          (file-IsLaidOut self packed sized).variants_at)

    pub symbols_back : symbols db ≡ ok (parts self).symbol_slices
    unfolding symbols header_of
    symbols_back = rw header_back (
        table_read put_slice read_slice slice_size (file_of self packed)
          (length (parts self).symbols_end) (parts self).symbol_slices (omega arith) small
          (slices_back _ (
            Placed-IsSlice (file_of self packed) _ (parts self).symbol_slices small
              (file-IsLaidOut self packed sized).symbols_placed))
          (file-IsLaidOut self packed sized).symbols_at)

    pub object_names_back : object_names db ≡ ok (parts self).name_slices
    unfolding object_names header_of
    object_names_back = rw header_back (
        table_read put_slice read_slice slice_size (file_of self packed)
          (length (parts self).names_end) (parts self).name_slices (omega arith) small
          (slices_back _ (
            Placed-IsSlice (file_of self packed) _ (parts self).name_slices small
              (file-IsLaidOut self packed sized).names_placed))
          (file-IsLaidOut self packed sized).names_at)

    pub uuids_back : All IsUuid self.variant_uuids → uuids db ≡ ok (sort_uuids self.variant_uuids)
    unfolding uuids header_of sort_uuids
    uuids_back fit =
        let rows = sort_uuids self.variant_uuids in
        let count : length self.variant_uuids ≡ length rows =
          sym (length-sort_by (λ a b. list_ord.cmp a.uuid b.uuid) self.variant_uuids) in
        rw header_back (
          ap
            (λ n.
              get_slice read_uuid uuid_size (file_of self packed)
                (as_u32 (length (parts self).variants_index)) (as_u32 n))
            count
          ∙ table_read put_uuid read_uuid uuid_size (file_of self packed)
              (length (parts self).variants_index) rows (omega arith) small
              (sort_by-All _ _ self.variant_uuids (
                All-imp IsUuid _ self.variant_uuids
                  (λ u k. (length-put_uuid u k, read_uuid-put_uuid u k)) fit))
              (file-IsLaidOut self packed sized).uuids_at)
