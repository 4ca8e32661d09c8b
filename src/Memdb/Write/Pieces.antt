-- ===== src/Memdb/Write/Pieces.antt =====
-- src/memdb/write.rs: texts and items that are written one after the other, with their slices.
use symbolserver.Prelude.{ℕ, zero, suc, ◌-◌, ◌^◌, ◌≤◌, ◌<◌, ◌≡◌, refl, ap, sym, ◌∙◌, arith}
use symbolserver.Prelude.{false, some, List, [], ◌∷◌, ◌++◌, map, All}
use symbolserver.Prelude.{length, get_elem?, get_elem?-lt, length-append}
use symbolserver.Errors.{Str, ok}
use symbolserver.Bytes.{Bytes, write_all}
use symbolserver.Utils.BinSearch.{index}
use symbolserver.Memdb.Types.{Uuid, StoredSlice, IndexItem, new_slice, slice_len, is_compressed}
use symbolserver.Memdb.Types.Laws.{new_slice_roundtrip}
use symbolserver.Memdb.Read.{get_data, header_size}
use symbolserver.Memdb.Write.Layout.{put_item}
use symbolserver.Memdb.Write.LayoutLaws.{IsSlice}
use symbolserver.Memdb.Write.Region.{At, At-last, At-append, At-le, At-get_data}
use symbolserver.Memdb.Write.Flush.{check_items, put_variants, make_string_slices}
use mathlib.Core.List.{append_assoc, append-nil}

-- A file that has grown.
pub record Extends (a b : Bytes) : Type 0 where
  pub more : Bytes
  pub grown : b ≡ a ++ more

pub Extends-append : (a more : Bytes) → Extends a (a ++ more)
Extends-append a more = record { more = more; grown = refl }

pub Extends-trans : {a b c : Bytes} → Extends a b → Extends b c → Extends a c
Extends-trans {a} {b} {c} e f = record {
  more = e.more ++ f.more;
  grown = f.grown ∙ (ap (λ t. t ++ f.more) e.grown ∙ append_assoc a e.more f.more);
}

pub Extends-le : {a b : Bytes} → Extends a b → length a ≤ length b
Extends-le {a} {b} e = omega (arith, ap length e.grown, length-append a e.more)

pub At-Extends : {a b : Bytes} {s : ℕ} {bs : Bytes} → Extends a b → At a s bs → At b s bs
At-Extends {a} {b} {s} {bs} e at = rw e.grown (At-append e.more at)

-- Every piece stands behind the header, at its slice.
pub record IsPlaced (file b : Bytes) (s : StoredSlice) : Type 0 where
  pub offset : ℕ
  pub behind_header : header_size ≤ offset
  pub region : At file offset b
  pub slice : s ≡ new_slice offset (length b) false

abbrev pub Placed : Bytes → List Bytes → List StoredSlice → Type 0
Placed file [] [] = Unit
Placed file (b ∷ bs) (s ∷ ss) = IsPlaced file b s × Placed file bs ss
Placed file [] (s ∷ ss) = ⊥
Placed file (b ∷ bs) [] = ⊥

pub Placed-imp :
    (file file' : Bytes)
    → ((s : ℕ) (b : Bytes) → header_size ≤ s → At file s b → At file' s b)
    → (bs : List Bytes) (ss : List StoredSlice) → Placed file bs ss
    → Placed file' bs ss
Placed-imp file file' keep [] [] h = tt
Placed-imp file file' keep [] (s ∷ ss) h = elim h [ ]
Placed-imp file file' keep (b ∷ bs) [] h = elim h [ ]
Placed-imp file file' keep (b ∷ bs) (s ∷ ss) (p, h) = (
  record {
    offset = p.offset;
    behind_header = p.behind_header;
    region = keep p.offset b p.behind_header p.region;
    slice = p.slice;
  },
  Placed-imp file file' keep bs ss h,
)

pub make_string_slices-Extends :
    (out : Bytes) (bs : List Bytes) → Extends out (make_string_slices out bs).0
unfolding make_string_slices
make_string_slices-Extends out [] = record { more = []; grown = sym (append-nil out) }
make_string_slices-Extends out (b ∷ bs) =
    Extends-trans (Extends-append out b) (make_string_slices-Extends (out ++ b) bs)

pub make_string_slices-Placed :
    (out : Bytes) (bs : List Bytes)
    → header_size ≤ length out
    → Placed (make_string_slices out bs).0 bs (make_string_slices out bs).1
unfolding make_string_slices
make_string_slices-Placed out [] h = tt
make_string_slices-Placed out (b ∷ bs) h = (
  record {
    offset = length out;
    behind_header = h;
    region = At-Extends (make_string_slices-Extends (out ++ b) bs) (At-last out b);
    slice = refl;
  },
  make_string_slices-Placed (out ++ b) bs (omega (arith, length-append out b)),
)

pub length-Placed :
    (file : Bytes) (bs : List Bytes) (ss : List StoredSlice)
    → Placed file bs ss
    → length ss ≡ length bs
length-Placed file [] [] h = refl
length-Placed file [] (s ∷ ss) h = elim h [ ]
length-Placed file (b ∷ bs) [] h = elim h [ ]
length-Placed file (b ∷ bs) (s ∷ ss) (p, h) = ap suc (length-Placed file bs ss h)

-- A piece is read through its slice.
pub record IsStored (file b : Bytes) (s : StoredSlice) : Type 0 where
  pub read : get_data file s.offset (slice_len s) ≡ ok b
  pub plain : is_compressed s ≡ false
  pub sized : slice_len s ≡ length b

pub IsPlaced-IsStored :
    {file b : Bytes} {s : StoredSlice}
    → length file < 2 ^ 31
    → IsPlaced file b s
    → IsStored file b s
IsPlaced-IsStored {file} {b} {s} small p =
    let le = At-le p.region in
    let (o, l, c) = new_slice_roundtrip p.offset (length b) false (omega arith) (omega arith) in
    let stored : IsStored file b (new_slice p.offset (length b) false) = record {
      read = (λ i. get_data file (o i) (l i)) ∙ At-get_data (omega arith) p.region;
      plain = c;
      sized = l;
    } in
    rw p.slice stored

pub Placed-get :
    (file : Bytes) (bs : List Bytes) (ss : List StoredSlice) (i : ℕ) (b : Bytes)
    → length file < 2 ^ 31
    → Placed file bs ss
    → get_elem? bs i ≡ some b
    → (s : StoredSlice) × (get_elem? ss i ≡ some s) × IsStored file b s
Placed-get file [] [] i b small h at = cc
Placed-get file [] (s ∷ ss) i b small h at = elim h [ ]
Placed-get file (c ∷ bs) [] i b small h at = elim h [ ]
Placed-get file (c ∷ bs) (s ∷ ss) zero b small (p, h) at =
    let same : c ≡ b = cc at in (s, refl, rw (← same) (IsPlaced-IsStored small p))
Placed-get file (c ∷ bs) (s ∷ ss) (suc i) b small (p, h) at = Placed-get file bs ss i b small h at

pub Placed-IsSlice :
    (file : Bytes) (bs : List Bytes) (ss : List StoredSlice)
    → length file < 2 ^ 31
    → Placed file bs ss
    → All IsSlice ss
unfolding new_slice
Placed-IsSlice file [] [] small h = tt
Placed-IsSlice file [] (s ∷ ss) small h = elim h [ ]
Placed-IsSlice file (b ∷ bs) [] small h = elim h [ ]
Placed-IsSlice file (b ∷ bs) (s ∷ ss) small (p, h) = (
  rw p.slice (record { offset_fits = omega arith; len_fits = omega arith }),
  Placed-IsSlice file bs ss small h,
)

check_items_ok :
    (mapping : List (Str × Uuid)) (v : List IndexItem)
    → All (λ (i : IndexItem). i.src_id < length mapping) v
    → check_items mapping v ≡ ok tt
unfolding check_items index
check_items_ok mapping [] h = refl
check_items_ok mapping (i ∷ v) (h, hs) =
    let (m, at) = get_elem?-lt mapping i.src_id h in
    rw (at, index, check_items_ok mapping v hs) refl

-- Where no source id is out of range, the variants are written as any pieces are.
pub put_variants_ok :
    (mapping : List (Str × Uuid)) (out : Bytes) (vs : List (List IndexItem))
    → All (All (λ (i : IndexItem). i.src_id < length mapping)) vs
    → put_variants mapping out vs ≡ ok (make_string_slices out (map (write_all put_item) vs))
unfolding put_variants make_string_slices
put_variants_ok mapping out [] h = refl
put_variants_ok mapping out (v ∷ vs) (h, hs) =
    let n = length (out ++ write_all put_item v) - length out in
    let same : n ≡ length (write_all put_item v) =
      omega (arith, length-append out (write_all put_item v)) in
    rw (check_items_ok mapping v h, put_variants_ok mapping (out ++ write_all put_item v) vs hs)
      (ap
        (λ m. ok (
          (make_string_slices (out ++ write_all put_item v) (map (write_all put_item) vs)).0,
          new_slice (length out) m false
              ∷ (make_string_slices (out ++ write_all put_item v) (map (write_all put_item) vs)).1,
        ))
        same)
