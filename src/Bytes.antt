-- ===== src/Bytes.antt =====
-- Memory as lists of bytes: the little-endian integers of the supported targets, and arrays of
-- records of a fixed size.
use symbolserver.Prelude.{ℕ, zero, suc, ◌+◌, ◌*◌, ◌/◌, ◌%◌, ◌^◌, ◌<◌, ◌≡◌, refl, ap}
use symbolserver.Prelude.{List, [], ◌∷◌, ◌++◌, map, arith, length, take, drop}
use symbolserver.Prelude.{take-append_of_length, drop-append_of_length, length-append}
use native.Mathlib.Nat.{pow-suc}
use mathlib.Core.List.{append_assoc}

abbrev pub Bytes : Type 0
Bytes = List ℕ

-- An unsigned integer in `n` bytes, the lowest first.
unfoldable pub le_bytes : ℕ → ℕ → Bytes
le_bytes zero x = []
le_bytes (suc n) x = (x % 256) ∷ le_bytes n (x / 256)

unfoldable pub of_le : Bytes → ℕ
of_le [] = 0
of_le (b ∷ bs) = b + 256 * of_le bs

-- `len` bytes at offset `start`.
abbrev pub window : ℕ → ℕ → Bytes → Bytes
window start len bs = take len (drop start bs)

-- `n` records of `size` bytes, one after the other.
unfoldable pub records : ℕ → ℕ → Bytes → List Bytes
records zero size bs = []
records (suc n) size bs = take size bs ∷ records n size (drop size bs)

-- The bytes of a list of values, each written in turn.
unfoldable pub write_all {ℓ} : {A : Type ℓ} → (A → Bytes) → List A → Bytes
write_all put [] = []
write_all put (x ∷ xs) = put x ++ write_all put xs

pub length-le_bytes : (n x : ℕ) → length (le_bytes n x) ≡ n
unfolding le_bytes
length-le_bytes zero x = refl
length-le_bytes (suc n) x = ap suc (length-le_bytes n (x / 256))

pub of_le-le_bytes : (n x : ℕ) → x < 256 ^ n → of_le (le_bytes n x) ≡ x
unfolding le_bytes of_le
of_le-le_bytes zero x h = omega arith
of_le-le_bytes (suc n) x h =
    omega (arith, of_le-le_bytes n (x / 256) (bound (rw (pow-suc 256 n) at h)))
  where
    bound : x < 256 ^ n * 256 → x / 256 < 256 ^ n
    bound h = omega arith

module _ {ℓ} {A : Type ℓ} (put : A → Bytes) (get : Bytes → A) (size : ℕ) where
  -- Values that are written at a fixed size are read back as an array.
  pub map-records-write_all :
      (xs : List A) (rest : Bytes)
      → ((x : A) → length (put x) ≡ size)
      → ((x : A) → get (put x) ≡ x)
      → map get (records (length xs) size (write_all put xs ++ rest)) ≡ xs
  unfolding records write_all
  map-records-write_all [] rest sized back = refl
  map-records-write_all (x ∷ xs) rest sized back = rw (
    append_assoc,
    take-append_of_length size (put x) (write_all put xs ++ rest) (sized x),
    drop-append_of_length size (put x) (write_all put xs ++ rest) (sized x),
    back x,
    map-records-write_all xs rest sized back,
  )

  pub length-write_all :
      (xs : List A)
      → ((x : A) → length (put x) ≡ size)
      → length (write_all put xs) ≡ length xs * size
  unfolding write_all
  length-write_all [] sized = omega arith
  length-write_all (x ∷ xs) sized =
      grind (arith, length-append (put x) (write_all put xs), sized x, length-write_all xs sized)
