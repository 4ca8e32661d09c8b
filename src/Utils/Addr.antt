-- ===== src/Utils/Addr.antt =====
-- `Addr` of src/utils.rs, an address as text in the API: its serialisation, and `visit_str`.
use symbolserver.Prelude.{ℕ, suc, ◌+◌, ◌*◌, ◌^◌, ◌<◌, ◌≡◌, ◌≢◌, refl, Bool, true, false, ◌&&◌, not}
use symbolserver.Prelude.{
  Option, none, some, List, [], ◌∷◌, ◌++◌, ◌==◌, ltb, leb, if◌then◌else◌, arith,
}
use symbolserver.Errors.{Str, Result, ok, err, panic, foreign, json_error}
use symbolserver.Text.{to_radix, from_str_radix, is_continuation}
pub mod Laws

-- `0x{:x}`
unfoldable pub serialize : ℕ → Str
unfolding to_radix
serialize addr = b'0' ∷ b'x' ∷ to_radix 16 addr

abbrev to_result : Option ℕ → Result ℕ
to_result none = err (foreign json_error)
to_result (some n) = ok n

-- The slice `value[..2]` panics where the text is shorter, or where byte 2 is inside a character.
unfoldable pub visit_str : Str → Result ℕ
unfolding from_str_radix
visit_str (a ∷ b ∷ rest) =
    if is_continuation rest
    then panic
    else if a == b'0' && b == b'x'
    then to_result (from_str_radix 16 (2 ^ 64) rest)
    else to_result (from_str_radix 10 (2 ^ 64) (a ∷ b ∷ rest))
visit_str _ = panic

-- A JSON number is taken as it is.
unfoldable pub visit_u64 : ℕ → Result ℕ
visit_u64 value = ok value
