-- ===== src/Memdb/Write/LayoutLaws.antt =====
-- src/memdb/write.rs: the records of a memdb file are read back as they were written.
use symbolserver.Prelude.{ℕ, zero, suc, ◌+◌, ◌*◌, ◌^◌, ◌<◌, ◌≡◌, refl, ap, ◌∙◌, arith}
use symbolserver.Prelude.{List, [], ◌∷◌, ◌++◌, length, take, drop, All, map}
use symbolserver.Prelude.{take-append_of_length, drop-append_of_length, length-append}
use symbolserver.Bytes.{Bytes, le_bytes, of_le, of_le-le_bytes, length-le_bytes, records, write_all}
use symbolserver.Memdb.Types.{PackedSdkInfo, MemDbHeader, StoredSlice, IndexedUuid, IndexItem}
use symbolserver.Memdb.Read.{read_packed, read_header, read_slice, read_uuid, read_item}
use symbolserver.Memdb.Write.Layout.{put_packed, put_header, put_slice, put_uuid, put_item}

-- Values that fit their fields.
pub record IsSlice (s : StoredSlice) : Type 0 where
  pub offset_fits : s.offset < 2 ^ 32
  pub len_fits : s.len < 2 ^ 32

pub record IsItem (i : IndexItem) : Type 0 where
  pub low_fits : i.addr_low < 2 ^ 32
  pub high_fits : i.addr_high < 2 ^ 16
  pub src_fits : i.src_id < 2 ^ 16
  pub sym_fits : i.sym_id < 2 ^ 32

pub record IsUuid (u : IndexedUuid) : Type 0 where
  pub sized : length u.uuid ≡ 16
  pub idx_fits : u.idx < 2 ^ 16

pub read_slice-put_slice : (s : StoredSlice) → IsSlice s → read_slice (put_slice s) ≡ s
unfolding read_slice put_slice le_bytes of_le
read_slice-put_slice s h = λ i. record {
  offset = of_le-le_bytes 4 s.offset h.offset_fits i;
  len = of_le-le_bytes 4 s.len h.len_fits i;
}

pub read_item-put_item : (it : IndexItem) → IsItem it → read_item (put_item it) ≡ it
unfolding read_item put_item le_bytes of_le
read_item-put_item it h = λ i. record {
  addr_low = of_le-le_bytes 4 it.addr_low h.low_fits i;
  addr_high = of_le-le_bytes 2 it.addr_high h.high_fits i;
  src_id = of_le-le_bytes 2 it.src_id h.src_fits i;
  sym_id = of_le-le_bytes 4 it.sym_id h.sym_fits i;
}

take-all : (n : ℕ) (xs : Bytes) → length xs ≡ n → take n xs ≡ xs
take-all zero [] h = refl
take-all zero (x ∷ xs) h = absurd (omega arith)
take-all (suc n) [] h = refl
take-all (suc n) (x ∷ xs) h = ap (λ l. x ∷ l) (take-all n xs (omega arith))

pub read_uuid-put_uuid : (u : IndexedUuid) → IsUuid u → read_uuid (put_uuid u) ≡ u
unfolding read_uuid put_uuid
read_uuid-put_uuid u h = λ i. record {
  uuid = take-append_of_length 16 u.uuid (le_bytes 2 u.idx) h.sized i;
  idx =
      (ap (λ b. of_le (take 2 b)) (drop-append_of_length 16 u.uuid (le_bytes 2 u.idx) h.sized)
          ∙ (ap of_le (take-all 2 (le_bytes 2 u.idx) (length-le_bytes 2 u.idx))
              ∙ of_le-le_bytes 2 u.idx h.idx_fits))
        i;
}

pub length-put_slice : (s : StoredSlice) → length (put_slice s) ≡ 8
unfolding put_slice le_bytes
length-put_slice s = refl

pub length-put_item : (i : IndexItem) → length (put_item i) ≡ 12
unfolding put_item le_bytes
length-put_item i = refl

pub length-put_uuid : (u : IndexedUuid) → IsUuid u → length (put_uuid u) ≡ 18
unfolding put_uuid le_bytes
length-put_uuid u h = omega (arith, length-append u.uuid (le_bytes 2 u.idx), h.sized)

-- Values that are written at a fixed size are read back as an array.
module _ {A : Type 0} (put : A → Bytes) (get : Bytes → A) (size : ℕ) where
  pub read_back :
      (xs : List A)
      → All (λ x. (length (put x) ≡ size) × (get (put x) ≡ x)) xs
      → map get (records (length xs) size (write_all put xs)) ≡ xs
  unfolding records write_all
  read_back [] h = refl
  read_back (x ∷ xs) ((sized, back), hs) = rw (
    take-append_of_length size (put x) (write_all put xs) sized,
    drop-append_of_length size (put x) (write_all put xs) sized,
    back,
    read_back xs hs,
  )

  pub length-write_all-All :
      (xs : List A)
      → All (λ x. (length (put x) ≡ size) × (get (put x) ≡ x)) xs
      → length (write_all put xs) ≡ length xs * size
  unfolding write_all
  length-write_all-All [] h = omega arith
  length-write_all-All (x ∷ xs) ((sized, back), hs) =
      grind (arith, length-append (put x) (write_all put xs), sized, length-write_all-All xs hs)

drop-append_add : (n k : ℕ) (xs ys : Bytes) → length xs ≡ n → drop (n + k) (xs ++ ys) ≡ drop k ys
drop-append_add zero k [] ys h = ap (λ m. drop m ys) {x = 0 + k} (omega arith)
drop-append_add zero k (x ∷ xs) ys h = absurd (omega arith)
drop-append_add (suc n) k [] ys h = absurd (omega arith)
drop-append_add (suc n) k (x ∷ xs) ys h =
    ap (λ m. drop m (x ∷ (xs ++ ys))) {x = suc n + k} {y = suc (n + k)} (omega arith)
    ∙ drop-append_add n k xs ys (omega arith)

-- A description that fits its record.
pub record IsPacked (p : PackedSdkInfo) : Type 0 where
  pub name_sized : length p.name ≡ 8
  pub build_sized : length p.build ≡ 24
  pub major_fits : p.version_major < 2 ^ 16
  pub minor_fits : p.version_minor < 2 ^ 16
  pub patchlevel_fits : p.version_patchlevel < 2 ^ 16

pub length-put_packed : (p : PackedSdkInfo) → IsPacked p → length (put_packed p) ≡ 38
unfolding put_packed le_bytes
length-put_packed p h = omega (
  arith,
  length-append p.name (
      le_bytes 2 p.version_major
      ++ (le_bytes 2 p.version_minor ++ (le_bytes 2 p.version_patchlevel ++ p.build))),
  h.name_sized,
  h.build_sized,
)

read_packed-put_packed : (p : PackedSdkInfo) → IsPacked p → read_packed (put_packed p) ≡ p
unfolding read_packed put_packed le_bytes
read_packed-put_packed p h = λ i. record {
  name = take-append_of_length 8 p.name rest h.name_sized i;
  version_major =
      (ap (λ b. of_le (take 2 b)) (drop-append_add 8 0 p.name rest h.name_sized)
          ∙ of_le-le_bytes 2 p.version_major h.major_fits)
        i;
  version_minor =
      (ap (λ b. of_le (take 2 b)) (drop-append_add 8 2 p.name rest h.name_sized)
          ∙ of_le-le_bytes 2 p.version_minor h.minor_fits)
        i;
  version_patchlevel =
      (ap (λ b. of_le (take 2 b)) (drop-append_add 8 4 p.name rest h.name_sized)
          ∙ of_le-le_bytes 2 p.version_patchlevel h.patchlevel_fits)
        i;
  build =
      (ap (λ b. take 24 b) (drop-append_add 8 6 p.name rest h.name_sized)
          ∙ take-all 24 p.build h.build_sized)
        i;
}
  where
    rest : Bytes
    rest =
        le_bytes 2 p.version_major
        ++ (le_bytes 2 p.version_minor ++ (le_bytes 2 p.version_patchlevel ++ p.build))

pub record IsHeader (h : MemDbHeader) : Type 0 where
  pub version_fits : h.version < 2 ^ 32
  pub packed : IsPacked h.sdk_info
  pub variants_start_fits : h.variants_start < 2 ^ 32
  pub variants_count_fits : h.variants_count < 2 ^ 32
  pub uuids_start_fits : h.uuids_start < 2 ^ 32
  pub uuids_count_fits : h.uuids_count < 2 ^ 32
  pub tagged_object_names_start_fits : h.tagged_object_names_start < 2 ^ 32
  pub tagged_object_names_end_fits : h.tagged_object_names_end < 2 ^ 32
  pub object_names_start_fits : h.object_names_start < 2 ^ 32
  pub object_names_count_fits : h.object_names_count < 2 ^ 32
  pub symbols_start_fits : h.symbols_start < 2 ^ 32
  pub symbols_count_fits : h.symbols_count < 2 ^ 32

pub length-put_header : (h : MemDbHeader) → IsPacked h.sdk_info → length (put_header h) ≡ 84
unfolding put_header le_bytes
length-put_header h p =
    omega (arith, length-append (put_packed h.sdk_info) _, length-put_packed h.sdk_info p)

pub read_header-put_header : (h : MemDbHeader) → IsHeader h → read_header (put_header h) ≡ h
unfolding read_header put_header le_bytes
read_header-put_header h h' = λ i. record {
  version = of_le-le_bytes 4 h.version h'.version_fits i;
  sdk_info =
      (ap read_packed (take-append_of_length 38 (put_packed h.sdk_info) rest sized)
          ∙ read_packed-put_packed h.sdk_info h'.packed)
        i;
  variants_start = number 2 h.variants_start h'.variants_start_fits refl i;
  variants_count = number 6 h.variants_count h'.variants_count_fits refl i;
  uuids_start = number 10 h.uuids_start h'.uuids_start_fits refl i;
  uuids_count = number 14 h.uuids_count h'.uuids_count_fits refl i;
  tagged_object_names_start =
      number 18 h.tagged_object_names_start h'.tagged_object_names_start_fits refl i;
  tagged_object_names_end =
      number 22 h.tagged_object_names_end h'.tagged_object_names_end_fits refl i;
  object_names_start = number 26 h.object_names_start h'.object_names_start_fits refl i;
  object_names_count = number 30 h.object_names_count h'.object_names_count_fits refl i;
  symbols_start = number 34 h.symbols_start h'.symbols_start_fits refl i;
  symbols_count = number 38 h.symbols_count h'.symbols_count_fits refl i;
}
  where
    sized : length (put_packed h.sdk_info) ≡ 38
    sized = length-put_packed h.sdk_info h'.packed

    rest : Bytes
    rest =
        (0 ∷ 0 ∷ [])
        ++ (le_bytes 4 h.variants_start
            ++ (le_bytes 4 h.variants_count
                ++ (le_bytes 4 h.uuids_start
                    ++ (le_bytes 4 h.uuids_count
                        ++ (le_bytes 4 h.tagged_object_names_start
                            ++ (le_bytes 4 h.tagged_object_names_end
                                ++ (le_bytes 4 h.object_names_start
                                    ++ (le_bytes 4 h.object_names_count
                                        ++ (le_bytes 4 h.symbols_start
                                            ++ le_bytes 4 h.symbols_count)))))))))

    number :
        (k x : ℕ)
        → x < 2 ^ 32
        → take 4 (drop k rest) ≡ le_bytes 4 x
        → of_le (take 4 (drop (38 + k) (put_packed h.sdk_info ++ rest))) ≡ x
    number k x small at =
        ap (λ b. of_le (take 4 b)) (drop-append_add 38 k (put_packed h.sdk_info) rest sized)
        ∙ (ap of_le at ∙ of_le-le_bytes 4 x small)
