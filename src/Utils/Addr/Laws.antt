-- ===== src/Utils/Addr/Laws.antt =====
-- Addresses written by the server, or by a client, and read back.
use symbolserver.Prelude.{ℕ, ◌^◌, ◌<◌, ◌≤◌, ◌≡◌, refl, false}
use symbolserver.Prelude.{some, [], ◌∷◌, ◌==◌, ltb, leb, if◌then◌else◌}
use symbolserver.Prelude.{arith, All, length, Bool-cases, inl, inr, ltb→lt}
use symbolserver.Errors.{Str, ok, panic}
use symbolserver.Text.{from_digit, to_radix, from_str_radix, is_continuation}
use symbolserver.Text.Radix.{from_str_radix-to_radix, IsDigit, to_radix-IsDigit, length-to_radix}
use symbolserver.Utils.Addr.{serialize, visit_str}

digit_ascii : (radix c : ℕ) → radix ≤ 36 → IsDigit radix c → leb 0x80 c ≡ false
unfolding from_digit
digit_ascii radix c small (d, k, e) = rw e (ground arith)

not_continuation :
    (radix : ℕ) (s : Str) → radix ≤ 36 → All (IsDigit radix) s → is_continuation s ≡ false
not_continuation radix [] small h = refl
not_continuation radix (c ∷ s) small (h, _) = rw (digit_ascii radix c small h)

-- What the server writes for an address, it reads back.
pub visit_str-serialize : (addr : ℕ) → addr < 2 ^ 64 → visit_str (serialize addr) ≡ ok addr
unfolding visit_str serialize
visit_str-serialize addr h = rw (
  not_continuation 16 (to_radix 16 addr) (omega arith) (to_radix-IsDigit 16 (omega arith) addr),
  from_str_radix-to_radix 16 (2 ^ 64) (omega arith) (omega arith) addr h,
)

decimal_digit-ne_x : (c : ℕ) → IsDigit 10 c → (c == b'x') ≡ false
unfolding from_digit
decimal_digit-ne_x c (d, k, e) = rw e (ground arith)

-- An address in decimal digits is read if it has two digits or more; one digit panics.
pub visit_str-decimal :
    (addr : ℕ)
    → addr < 2 ^ 64
    → visit_str (to_radix 10 addr) ≡ (if ltb addr 10 then panic else ok addr)
visit_str-decimal addr h = elim (Bool-cases (ltb addr 10)) [
  | inl one ↦
      rw (one, (length-to_radix 10 (omega arith) addr).0 (ltb→lt _ _ one))
        (unfold visit_str in refl)
  | inr many ↦ rw many (
      long (to_radix 10 addr) ((length-to_radix 10 (omega arith) addr).1 (ground arith))
        (to_radix-IsDigit 10 (omega arith) addr)
        (from_str_radix-to_radix 10 (2 ^ 64) (omega arith) (omega arith) addr h))
]
  where
    long :
        (s : Str)
        → 2 ≤ length s
        → All (IsDigit 10) s
        → from_str_radix 10 (2 ^ 64) s ≡ some addr
        → visit_str s ≡ ok addr
    long [] few d e = absurd (omega arith)
    long (a ∷ []) few d e = absurd (omega arith)
    long (a ∷ b ∷ s) few (d, (d', ds)) e =
        unfold visit_str in
        rw (not_continuation 10 s (omega arith) ds, decimal_digit-ne_x b d', e) (ground arith)
