-- ===== src/Memdb/Write/File.antt =====
-- src/memdb/write.rs: where `flush` puts each part of the file.
use symbolserver.Prelude.{ℕ, ◌≤◌, ◌≡◌, arith}
use symbolserver.Prelude.{List, map}
use symbolserver.Prelude.{length, length-replicate, replicate}
use symbolserver.Bytes.{Bytes, write_all}
use symbolserver.Memdb.Types.{StoredSlice, PackedSdkInfo}
use symbolserver.Memdb.Read.{header_size}
use symbolserver.Memdb.Write.{MemDbBuilder}
use symbolserver.Memdb.Write.Layout.{put_header, put_slice, put_uuid, put_item}
use symbolserver.Memdb.Write.LayoutLaws.{IsPacked, length-put_header}
use symbolserver.Memdb.Write.Region.{At, At-last, At-rewrite}
use symbolserver.Memdb.Write.Flush.{
  make_string_slices, write_slices, sort_uuids, Parts, write_parts, header_of, rewrite_header,
}
use symbolserver.Memdb.Write.Pieces.{
  Extends, Extends-append, Extends-trans, Extends-le, At-Extends, Placed, Placed-imp,
  make_string_slices-Extends, make_string_slices-Placed,
}

-- The file before the header is written, in its parts.
module _ (self : MemDbBuilder) where
  abbrev pub pieces : List Bytes
  pieces = map (write_all put_item) self.variants

  abbrev pub began : Bytes × List StoredSlice
  began = make_string_slices (replicate header_size 0) pieces

  unfoldable pub parts : Parts
  unfolding write_parts
  parts = write_parts self began.0 began.1

  -- What `flush` leaves, before it is compressed.
  unfoldable pub file_of : PackedSdkInfo → Bytes
  file_of packed = rewrite_header (header_of self packed parts) parts.symbols_index

  -- Each part of the file, in the file before the header is written.
  pub record IsLaidOut (file : Bytes) : Type 0 where
    pub variants_placed : Placed file pieces parts.variant_slices
    pub variants_at : At file (length parts.variants_end) (write_all put_slice parts.variant_slices)
    pub uuids_at :
        At file (length parts.variants_index) (write_all put_uuid (sort_uuids self.variant_uuids))
    pub names_placed : Placed file self.object_names parts.name_slices
    pub names_at : At file (length parts.names_end) (write_all put_slice parts.name_slices)
    pub symbols_placed : Placed file self.symbols parts.symbol_slices
    pub symbols_at : At file (length parts.symbols_end) (write_all put_slice parts.symbol_slices)

  before_le : header_size ≤ length began.0
  before_le = omega (
    arith,
    length-replicate {A = ℕ} header_size 0,
    Extends-le (make_string_slices-Extends (replicate header_size 0) pieces),
  )

  -- The file only grows.
  record Growth : Type 0 where
    variants_index : Extends began.0 parts.variants_index
    uuids_end : Extends parts.variants_index parts.uuids_end
    tagged_end : Extends parts.uuids_end parts.tagged_end
    names_end : Extends parts.tagged_end parts.names_end
    names_index : Extends parts.names_end parts.names_index
    symbols_end : Extends parts.names_index parts.symbols_end
    symbols_index : Extends parts.symbols_end parts.symbols_index

  growth : Growth
  unfolding parts write_slices
  growth = record {
    variants_index = Extends-append began.0 _;
    uuids_end = Extends-append _ _;
    tagged_end = Extends-append _ _;
    names_end = make_string_slices-Extends parts.tagged_end self.object_names;
    names_index = Extends-append _ _;
    symbols_end = make_string_slices-Extends parts.names_index self.symbols;
    symbols_index = Extends-append _ _;
  }

  -- From each stage to the last.
  from_symbols_end : Extends parts.symbols_end parts.symbols_index
  from_symbols_end = growth.symbols_index

  from_names_index : Extends parts.names_index parts.symbols_index
  from_names_index = Extends-trans growth.symbols_end from_symbols_end

  from_names_end : Extends parts.names_end parts.symbols_index
  from_names_end = Extends-trans growth.names_index from_names_index

  from_uuids_end : Extends parts.uuids_end parts.symbols_index
  from_uuids_end = Extends-trans growth.tagged_end (Extends-trans growth.names_end from_names_end)

  from_variants_index : Extends parts.variants_index parts.symbols_index
  from_variants_index = Extends-trans growth.uuids_end from_uuids_end

  from_variants_end : Extends began.0 parts.symbols_index
  from_variants_end = Extends-trans growth.variants_index from_variants_index

  keep :
      {a b : Bytes} → Extends a b → (s : ℕ) (bs : Bytes) → header_size ≤ s → At a s bs → At b s bs
  keep e s bs le at = At-Extends e at

  variants_index_le : header_size ≤ length parts.variants_index
  variants_index_le = omega (arith, before_le, Extends-le growth.variants_index)

  tagged_end_le : header_size ≤ length parts.tagged_end
  tagged_end_le =
      omega (arith, variants_index_le, Extends-le growth.uuids_end, Extends-le growth.tagged_end)

  names_end_le : header_size ≤ length parts.names_end
  names_end_le = omega (arith, tagged_end_le, Extends-le growth.names_end)

  names_index_le : header_size ≤ length parts.names_index
  names_index_le = omega (arith, names_end_le, Extends-le growth.names_index)

  symbols_end_le : header_size ≤ length parts.symbols_end
  symbols_end_le = omega (arith, names_index_le, Extends-le growth.symbols_end)

  -- Before the header is written.
  parts-IsLaidOut : IsLaidOut parts.symbols_index
  unfolding parts write_slices
  parts-IsLaidOut = record {
    variants_placed =
        Placed-imp began.0 parts.symbols_index (keep from_variants_end) pieces began.1 (
          make_string_slices-Placed (replicate header_size 0) pieces
            (omega (arith, length-replicate {A = ℕ} header_size 0)));
    variants_at = At-Extends from_variants_index (At-last began.0 _);
    uuids_at = At-Extends from_uuids_end (At-last parts.variants_index _);
    names_placed =
        Placed-imp parts.names_end parts.symbols_index (keep from_names_end) self.object_names
          parts.name_slices
          (make_string_slices-Placed parts.tagged_end self.object_names tagged_end_le);
    names_at = At-Extends from_names_index (At-last parts.names_end _);
    symbols_placed =
        Placed-imp parts.symbols_end parts.symbols_index (keep from_symbols_end) self.symbols
          parts.symbol_slices
          (make_string_slices-Placed parts.names_index self.symbols names_index_le);
    symbols_at = At-last parts.symbols_end _;
  }

  module _ (packed : PackedSdkInfo) (sized : IsPacked packed) where
    pub header_sized : length (put_header (header_of self packed parts)) ≡ header_size
    unfolding header_of
    header_sized = length-put_header (header_of self packed parts) sized

    rewritten :
        (s : ℕ) (bs : Bytes)
        → header_size ≤ s
        → At parts.symbols_index s bs
        → At (file_of packed) s bs
    unfolding file_of rewrite_header
    rewritten s bs le at = At-rewrite (put_header (header_of self packed parts)) header_sized le at

    -- In the finished file.
    pub file-IsLaidOut : IsLaidOut (file_of packed)
    unfolding parts
    file-IsLaidOut = record {
      variants_placed =
          Placed-imp parts.symbols_index (file_of packed) rewritten pieces parts.variant_slices
            parts-IsLaidOut.variants_placed;
      variants_at = rewritten (length parts.variants_end) _ before_le parts-IsLaidOut.variants_at;
      uuids_at =
          rewritten (length parts.variants_index) _ variants_index_le parts-IsLaidOut.uuids_at;
      names_placed =
          Placed-imp parts.symbols_index (file_of packed) rewritten self.object_names
            parts.name_slices parts-IsLaidOut.names_placed;
      names_at = rewritten (length parts.names_end) _ names_end_le parts-IsLaidOut.names_at;
      symbols_placed =
          Placed-imp parts.symbols_index (file_of packed) rewritten self.symbols parts.symbol_slices
            parts-IsLaidOut.symbols_placed;
      symbols_at = rewritten (length parts.symbols_end) _ symbols_end_le parts-IsLaidOut.symbols_at;
    }
