-- ===== src/Memdb/Lookup/Memory.antt =====
-- src/memdb/read.rs: the raw pointers of get_slice and header stay in the bytes that get_data checked.
use native.Mathlib.Nat.{pow-suc}
use symbolserver.Prelude.{
  ℕ, zero, suc, ◌+◌, ◌-◌, ◌*◌, ◌%◌, ◌^◌, ◌<◌, ◌≤◌, ◌≡◌, ◌∙◌, ◌||◌, ltb, All, take, drop, length, [],
  ◌∷◌, arith, Bool-cases, inl, inr, length-take, length-drop,
}
use symbolserver.Prelude.{Bool, true, false, Option, none, some, List}
use symbolserver.Prelude.{if◌then◌else◌, get_elem?}
use symbolserver.Prelude.Order.{Ord, list_ord, nat_ord}
use symbolserver.Errors.{Result, ok, err, panic, ◌>>=◌, ErrorKind, bad_memdb}
use symbolserver.Bytes.{Bytes, of_le, window}
use symbolserver.Utils.BinSearch.{index, binsearch_by_key}
use symbolserver.Utils.BinSearch.Laws.{binsearch_by_key_total}
use symbolserver.Memdb.Types.{MemDbHeader}
use symbolserver.Memdb.Read.{
  header, get_data, get_slice, read_header, header_size, from_raw_parts, transmute,
}

-- The outcome is a value, an error or a panic, and no read outside the memory of the file.
pub data Defined {ℓ} {A : Type ℓ} : Result A → Type ℓ where
  value : (a : A) → Defined (ok a)
  error : (e : ErrorKind) → Defined (err e)
  panics : Defined panic

pub >>=-Defined {ℓ κ} :
    {A : Type ℓ} {B : Type κ} {m : Result A} {f : A → Result B}
    → Defined m
    → ((a : A) → Defined (f a))
    → Defined (m >>= f)
>>=-Defined (value a) k = k a
>>=-Defined (error e) k = error e
>>=-Defined panics k = panics

pub if-Defined {ℓ} :
    {A : Type ℓ} (b : Bool) {x y : Result A} → Defined x → Defined y → Defined (if b then x else y)
if-Defined true h k = h
if-Defined false h k = k

or-false : (a b : Bool) → (a || b) ≡ false → (a ≡ false) × (b ≡ false)
or-false a b h = ground arith

-- What holds of the value, if there is one.
pub data Yields {ℓ κ} {A : Type ℓ} (Q : A → Type κ) : Result A → Type (ℓ ⊔ κ) where
  yields : (a : A) → Q a → Yields Q (ok a)
  fails : (e : ErrorKind) → Yields Q (err e)
  stops : Yields Q panic

pub >>=-Yields {ℓ κ ι} :
    {A : Type ℓ} {B : Type κ} {Q : A → Type ι} {m : Result A} {f : A → Result B}
    → Yields Q m
    → ((a : A) → Q a → Defined (f a))
    → Defined (m >>= f)
>>=-Yields (yields a q) k = k a q
>>=-Yields (fails e) k = error e
>>=-Yields stops k = panics

-- A byte of memory.
abbrev pub IsBytes : Bytes → Type 0
IsBytes bs = All (λ b. b < 256) bs

take-IsBytes : (n : ℕ) (bs : Bytes) → IsBytes bs → IsBytes (take n bs)
take-IsBytes zero bs h = tt
take-IsBytes (suc n) [] h = tt
take-IsBytes (suc n) (b ∷ bs) (h, hs) = (h, take-IsBytes n bs hs)

drop-IsBytes : (n : ℕ) (bs : Bytes) → IsBytes bs → IsBytes (drop n bs)
drop-IsBytes zero bs h = h
drop-IsBytes (suc n) [] h = tt
drop-IsBytes (suc n) (b ∷ bs) (h, hs) = drop-IsBytes n bs hs

length-take_le : (n : ℕ) (bs : Bytes) → length (take n bs) ≤ n
length-take_le zero bs = omega arith
length-take_le (suc n) [] = omega arith
length-take_le (suc n) (b ∷ bs) = omega (arith, length-take_le n bs)

of_le_lt : (n : ℕ) (bs : Bytes) → IsBytes bs → length bs ≤ n → of_le bs < 256 ^ n
unfolding of_le
of_le_lt zero [] h le = omega arith
of_le_lt zero (b ∷ bs) h le = absurd (omega arith)
of_le_lt (suc n) [] h le = rw (pow-suc 256 n) (omega (arith, of_le_lt n [] tt (omega arith)))
of_le_lt (suc n) (b ∷ bs) (h, hs) le =
    rw (pow-suc 256 n) (omega (arith, of_le_lt n bs hs (omega arith)))

u32_lt : (offset : ℕ) (bs : Bytes) → IsBytes bs → of_le (window offset 4 bs) < 2 ^ 32
u32_lt offset bs h =
    of_le_lt 4 (window offset 4 bs) (take-IsBytes 4 (drop offset bs) (drop-IsBytes offset bs h))
      (length-take_le 4 (drop offset bs))

-- The bytes that `get_data` hands out are as many as it was asked for.
abbrev pub Checked : ℕ → Bytes → Type 0
Checked len bs = (length bs ≡ len) × IsBytes bs

pub get_data-Checked :
    (buffer : Bytes) (start len : ℕ)
    → IsBytes buffer
    → len < 2 ^ 64
    → Yields (Checked len) (get_data buffer start len)
unfolding get_data
get_data-Checked buffer start len h small =
    let end = (start + len) % 2 ^ 64 in
    elim (Bool-cases (ltb end start || ltb (length buffer) end)) [
      | inl e ↦ rw (get_data, e) (fails bad_memdb)
      | inr e ↦
          let (above, inside) = or-false (ltb end start) (ltb (length buffer) end) e in
          let le : end ≤ length buffer = ground arith in
          let ge : start ≤ end = ground arith in
          let size : end - start ≡ len = omega (arith, ge) in
          rw (get_data, e)
            (yields (window start (end - start) buffer) (
              length-take (end - start) (drop start buffer)
                    (omega (arith, le, ge, length-drop start buffer))
                  ∙ size,
              take-IsBytes (end - start) (drop start buffer) (drop-IsBytes start buffer h),
            ))
    ]

pub from_raw_parts-Defined :
    {T : Type 0} (read : Bytes → T) (size : ℕ) (data_ : Bytes) (count : ℕ)
    → count * size ≤ length data_
    → Defined (from_raw_parts read size data_ count)
from_raw_parts-Defined read size data_ count le =
    let inside : ltb (length data_) (count * size) ≡ false = ground arith in rw inside (value _)

pub index-Defined {ℓ} : {A : Type ℓ} (xs : List A) (i : ℕ) → Defined (index xs i)
unfolding index
index-Defined {A} xs i = go (get_elem? xs i)
  where
    go : (o : Option A) → Defined (elim o [ none ↦ panic | some x ↦ ok x ])
    go none = panics
    go (some a) = value a

pub binsearch_by_key-Defined {ℓ κ} :
    {A : Type ℓ} {B : Type κ} ⦃o : Ord B⦄ (f : A → B) (xs : List A) (k : B)
    → Defined (binsearch_by_key f xs k)
binsearch_by_key-Defined f xs k = let (r, e, _) = binsearch_by_key_total f xs k in rw e (value r)

pub get_slice-Defined :
    {T : Type 0} (read : Bytes → T) (size : ℕ) (buffer : Bytes) (offset count : ℕ)
    → IsBytes buffer
    → size ≤ 18
    → count < 2 ^ 32
    → Defined (get_slice read size buffer offset count)
unfolding get_slice
get_slice-Defined read size buffer offset count h fits small =
    let total : count * size ≤ count * 18 = grind arith in
    >>=-Yields (get_data-Checked buffer offset (count * size % 2 ^ 64) h (omega arith))
      (λ bs (sized, _). from_raw_parts-Defined read size bs count (omega (arith, sized, total)))

-- The counts of a header are numbers of 32 bits.
pub record IsCounted (h : MemDbHeader) : Type 0 where
  pub uuids : h.uuids_count < 2 ^ 32
  pub variants : h.variants_count < 2 ^ 32
  pub symbols : h.symbols_count < 2 ^ 32
  pub object_names : h.object_names_count < 2 ^ 32

pub header-IsCounted : (buffer : Bytes) → IsBytes buffer → Yields IsCounted (header buffer)
unfolding header read_header
header-IsCounted buffer h = go (get_data-Checked buffer 0 header_size h (omega arith))
  where
    go :
        {m : Result Bytes}
        → Yields (Checked header_size) m
        → Yields IsCounted (m >>= transmute read_header header_size)
    go (yields bs (sized, k)) =
        let inside : ltb (length bs) header_size ≡ false = ground (arith, sized) in
        rw inside (
          yields (read_header bs) (record {
            uuids = u32_lt 56 bs k;
            variants = u32_lt 48 bs k;
            symbols = u32_lt 80 bs k;
            object_names = u32_lt 72 bs k;
          }))
    go (fails e) = fails e
    go stops = stops
