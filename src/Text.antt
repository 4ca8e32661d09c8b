-- ===== src/Text.antt =====
-- The operations on Rust's `str` and integers that the source uses from the standard library:
-- UTF-8 validation, trimming, and numbers in decimal and hexadecimal (`format!`, `parse`,
-- `from_str_radix`).
use Prim.Native.Char.{code}
use Prim.Native.String.{String}
use symbolserver.Prelude.{ℕ, zero, suc, ◌+◌, ◌-◌, ◌*◌, ◌/◌, ◌%◌, Bool, true, false, ◌&&◌}
use symbolserver.Prelude.{Option, none, some, List, [], ◌∷◌, ◌++◌, ltb, leb, ◌==◌, if◌then◌else◌}
use symbolserver.Errors.{Str}
pub mod Radix
pub mod Utf8
pub mod Paths

-- An ASCII literal as its bytes.
abbrev pub codes : String → Str
codes String.[] = []
codes (String.◌∷◌ c s) = code c ∷ codes s

-- `char::from_digit`.
unfoldable pub from_digit : ℕ → ℕ
from_digit d = if ltb d 10 then b'0' + d else b'a' + (d - 10)

-- `char::to_digit` for a radix up to 36.
unfoldable pub to_digit : ℕ → ℕ → Option ℕ
to_digit radix c =
    let d : Option ℕ =
      if leb b'0' c && leb c b'9'
      then some (c - b'0')
      else if leb b'a' c && leb c b'z'
      then some (c - b'a' + 10)
      else if leb b'A' c && leb c b'Z'
      then some (c - b'A' + 10)
      else none in
    elim d [ none ↦ none | some v ↦ if ltb v radix then some v else none ]

-- The digits of a number, most significant first. The number itself is fuel enough.
pub digits_of : ℕ → ℕ → ℕ → Str
unfolding from_digit
digits_of radix zero n = []
digits_of radix (suc fuel) n =
    let more = digits_of radix fuel (n / radix) ++ (from_digit (n % radix) ∷ []) in
    if ltb n radix then from_digit n ∷ [] else more

-- `{}` and `{:x}` of an unsigned integer.
unfoldable pub to_radix : ℕ → ℕ → Str
unfolding digits_of
to_radix radix n = digits_of radix (suc n) n

-- The checked accumulation of `from_str_radix` at an unsigned type with values below `limit`.
unfoldable pub push_digit : ℕ → ℕ → Option ℕ → ℕ → Option ℕ
push_digit radix limit none c = none
push_digit radix limit (some acc) c = elim (to_digit radix c) [
  | none ↦ none
  | some d ↦ if ltb (acc * radix + d) limit then some (acc * radix + d) else none
]

unfoldable pub read_digits : ℕ → ℕ → Option ℕ → Str → Option ℕ
unfolding push_digit to_digit
read_digits radix limit acc [] = acc
read_digits radix limit acc (c ∷ s) = read_digits radix limit (push_digit radix limit acc c) s

unfoldable pub read_nonempty : ℕ → ℕ → Str → Option ℕ
unfolding read_digits
read_nonempty radix limit [] = none
read_nonempty radix limit (c ∷ s) = read_digits radix limit (some 0) (c ∷ s)

-- `from_str_radix` and `parse`: a leading `+` is accepted, an empty text is not.
unfoldable pub from_str_radix : ℕ → ℕ → Str → Option ℕ
unfolding read_nonempty
from_str_radix radix limit [] = none
from_str_radix radix limit (c ∷ s) =
    if c == b'+' then read_nonempty radix limit s else read_nonempty radix limit (c ∷ s)

-- The bytes that may follow a lead byte of UTF-8, as ranges (the table of the Unicode standard,
-- which `str::from_utf8` follows). `none` is a byte that leads nothing.
lead : ℕ → Option (List (ℕ × ℕ))
lead b =
    let tail : ℕ × ℕ = (0x80, 0xbf) in
    if ltb b 0x80
    then some []
    else if ltb b 0xc2
    then none
    else if ltb b 0xe0
    then some (tail ∷ [])
    else if b == 0xe0
    then some ((0xa0, 0xbf) ∷ tail ∷ [])
    else if b == 0xed
    then some ((0x80, 0x9f) ∷ tail ∷ [])
    else if ltb b 0xf0
    then some (tail ∷ tail ∷ [])
    else if b == 0xf0
    then some ((0x90, 0xbf) ∷ tail ∷ tail ∷ [])
    else if ltb b 0xf4
    then some (tail ∷ tail ∷ tail ∷ [])
    else if b == 0xf4
    then some ((0x80, 0x8f) ∷ tail ∷ tail ∷ [])
    else none

utf8_from : List (ℕ × ℕ) → Str → Bool
unfolding lead
utf8_from [] [] = true
utf8_from (r ∷ rs) [] = false
utf8_from [] (b ∷ s) = elim (lead b) [ none ↦ false | some rs ↦ utf8_from rs s ]
utf8_from ((lo, hi) ∷ rs) (b ∷ s) = leb lo b && leb b hi && utf8_from rs s

-- `str::from_utf8` accepts the bytes.
unfoldable pub is_utf8 : Str → Bool
unfolding utf8_from
is_utf8 s = utf8_from [] s

-- `trim_right_matches('\x00')`.
unfoldable pub trim_zeros : Str → Str
trim_zeros [] = []
trim_zeros (b ∷ s) =
    let rest = trim_zeros s in
    if b == 0 then (elim rest [ [] ↦ [] | c ∷ r ↦ b ∷ c ∷ r ]) else b ∷ rest

-- A byte that continues a character of UTF-8, so that no slice of a `str` may begin there.
abbrev pub is_continuation : Str → Bool
is_continuation [] = false
is_continuation (c ∷ _) = leb 0x80 c && ltb c 0xc0
