-- ===== src/Memdb/Write/Region.antt =====
-- Regions of a file that grows at its end and whose header is written last.
use symbolserver.Prelude.{ℕ, zero, suc, ◌+◌, ◌^◌, ◌≤◌, ◌<◌, ◌≡◌, refl, ap, sym, ◌∙◌, arith}
use symbolserver.Prelude.{[], ◌∷◌, ◌++◌, length, take, drop, length-append, length-drop}
use symbolserver.Prelude.{take-append_of_length, drop-append_of_length}
use symbolserver.Errors.{ok}
use symbolserver.Bytes.{Bytes, window}
use symbolserver.Memdb.Read.{get_data, header_size}
use symbolserver.Prelude.{inl, inr}
use symbolserver.Memdb.Lookup.Laws.{get_data_exact}
use mathlib.Core.List.{append_assoc, append-nil}

-- The bytes `bs` stand at offset `s` of the file.
pub record At (file : Bytes) (s : ℕ) (bs : Bytes) : Type 0 where
  pub before : Bytes
  pub behind : Bytes
  pub whole : file ≡ before ++ (bs ++ behind)
  pub offset : length before ≡ s

pub At-last : (out bs : Bytes) → At (out ++ bs) (length out) bs
At-last out bs = record {
  before = out;
  behind = [];
  whole = ap (λ t. out ++ t) (sym (append-nil bs));
  offset = refl;
}

-- More bytes at the end leave a region where it is.
pub At-append :
    {file : Bytes} {s : ℕ} {bs : Bytes} (more : Bytes) → At file s bs → At (file ++ more) s bs
At-append {file} {s} {bs} more a = record {
  before = a.before;
  behind = a.behind ++ more;
  whole =
      ap (λ t. t ++ more) a.whole
      ∙ (append_assoc a.before (bs ++ a.behind) more
          ∙ ap (λ t. a.before ++ t) (append_assoc bs a.behind more));
  offset = a.offset;
}

drop-append_le : (n : ℕ) (xs ys : Bytes) → n ≤ length xs → drop n (xs ++ ys) ≡ drop n xs ++ ys
drop-append_le zero xs ys h = refl
drop-append_le (suc n) [] ys h = absurd (omega arith)
drop-append_le (suc n) (x ∷ xs) ys h = drop-append_le n xs ys (omega arith)

-- A region behind the header stays when the header is written anew.
pub At-rewrite :
    {file : Bytes} {s : ℕ} {bs : Bytes} (h : Bytes)
    → length h ≡ header_size
    → header_size ≤ s
    → At file s bs
    → At (h ++ drop header_size file) s bs
At-rewrite {file} {s} {bs} h sized le a = record {
  before = h ++ drop header_size a.before;
  behind = a.behind;
  whole =
      ap (λ t. h ++ drop header_size t) a.whole
      ∙ (ap (λ t. h ++ t)
            (drop-append_le header_size a.before (bs ++ a.behind) (omega (arith, a.offset)))
          ∙ sym (append_assoc h (drop header_size a.before) (bs ++ a.behind)));
  offset = omega (
    arith,
    length-append h (drop header_size a.before),
    length-drop header_size a.before,
    a.offset,
  );
}

pub At-le : {file : Bytes} {s : ℕ} {bs : Bytes} → At file s bs → s + length bs ≤ length file
At-le {file} {s} {bs} a = omega (
  arith,
  ap length a.whole,
  length-append a.before (bs ++ a.behind),
  length-append bs a.behind,
  a.offset,
)

At-window : {file : Bytes} {s : ℕ} {bs : Bytes} → At file s bs → window s (length bs) file ≡ bs
At-window {file} {s} {bs} a =
    ap (λ t. window s (length bs) t) a.whole
    ∙ (ap (λ t. take (length bs) t) (drop-append_of_length s a.before (bs ++ a.behind) a.offset)
        ∙ take-append_of_length (length bs) bs a.behind refl)

-- A region of a file below 2^64 bytes is read by `get_data`.
pub At-get_data :
    {file : Bytes} {s : ℕ} {bs : Bytes}
    → length file < 2 ^ 64
    → At file s bs
    → get_data file s (length bs) ≡ ok bs
At-get_data {file} {s} {bs} small a =
    let le = At-le a in
    elim (get_data_exact file s (length bs) small (omega arith) (omega arith)) [
      | inl (inside, read) ↦ read ∙ ap ok (At-window a)
      | inr (outside, read) ↦ absurd (omega arith)
    ]
