-- ===== src/Sdk/Filename/RoundTrip.antt =====
-- src/sdk.rs: `from_filename` reads back the names that `sdk_id` and `memdb_filename` make.
use symbolserver.Prelude.{ℕ, ◌^◌, ◌≤◌, ◌<◌, ◌≡◌, ◌≢◌, refl, ◌∙◌, arith}
use symbolserver.Prelude.{true, false, ◌==◌}
use symbolserver.Prelude.{Option, none, some, [], ◌∷◌, ◌++◌, All, All-imp, All-append, length}
use symbolserver.Prelude.{length-append}
use symbolserver.Prelude.Order.{nat_ord, list_ord}
use symbolserver.Errors.{Str}
use symbolserver.Text.{codes}
use symbolserver.Text.Radix.{length-to_radix_pos, from_str_radix-to_radix}
use symbolserver.Sdk.{SdkInfo, make_id, dotted, decimal}
use symbolserver.Sdk.Filename.{
  is_digit, is_alnum, many, expect, optional, Captures, version_captures, memdb_tail, memdb_from,
  memdb_captures, parse_u32, sdk_of, from_filename,
}
use symbolserver.Sdk.Filename.Matching.{
  IsEnd, IsSuffix, Stops, alnum-NoUnderscore, behind, decimal-digits, decimal-nonempty,
  digits-NoUnderscore, file_name-components, from_path-captured, many-append, memdb_from-append,
  memdb_from-found, memdb_from-none, memdb_from-underscore, memdb_tail-none, no_version,
  suffix-IsEnd,
}

-- A description that a name can be made of.
pub record IsNameable (i : SdkInfo) : Type 0 where
  pub name_nonempty : i.name ≢ []
  pub name_plain : All (λ c. ((c == b'-') ≡ false) × ((c == b'/') ≡ false)) i.name
  pub major_fits : i.version_major < 2 ^ 32
  pub minor_fits : i.version_minor < 2 ^ 32
  pub patchlevel_fits : i.version_patchlevel < 2 ^ 32
  pub build_plain : (b : Str) → i.build ≡ some b → (b ≢ []) × All (λ c. is_alnum c ≡ true) b

-- The version and the build, as they are printed, are read back.
module _ (i : SdkInfo) (suffix : Str) (plain : IsNameable i) (ends : IsSuffix suffix) where
  tail-IsEnd : IsEnd suffix
  tail-IsEnd = suffix-IsEnd suffix ends

  captured : Captures
  captured = record {
    name = i.name;
    major = decimal i.version_major;
    minor = decimal i.version_minor;
    patchlevel = some (decimal i.version_patchlevel);
    build = i.build;
  }

  behind-Stops : (build : Option Str) → Stops is_digit (behind build suffix)
  behind-Stops none = tail-IsEnd.no_digit
  behind-Stops (some b) = refl

  optional_build :
      (build : Option Str)
      → ((b : Str) → build ≡ some b → (b ≢ []) × All (λ c. is_alnum c ≡ true) b)
      → optional b'_' is_alnum (behind build suffix) ≡ (build, suffix)
  unfolding optional
  optional_build none h = rw (optional, tail-IsEnd.no_build) refl
  optional_build (some b) h =
      let (n, k) = h b refl in
      unfold expect in rw (optional, many-append is_alnum b suffix n k tail-IsEnd.no_alnum) refl

  sdk_of-captured : sdk_of captured ≡ some i
  unfolding captured sdk_of parse_u32
  sdk_of-captured =
      rw
        (
          from_str_radix-to_radix 10 (2 ^ 32) (omega arith) (omega arith) i.version_major
              plain.major_fits,
          from_str_radix-to_radix 10 (2 ^ 32) (omega arith) (omega arith) i.version_minor
              plain.minor_fits,
          from_str_radix-to_radix 10 (2 ^ 32) (omega arith) (omega arith) i.version_patchlevel
              plain.patchlevel_fits,
        )
        refl

  many-decimal :
      (n : ℕ) (rest : Str)
      → Stops is_digit rest
      → many is_digit (decimal n ++ rest) ≡ some (decimal n, rest)
  many-decimal n rest h =
      many-append is_digit (decimal n) rest (decimal-nonempty n) (decimal-digits n) h

  optional-patchlevel :
      optional b'.' is_digit (b'.' ∷ (decimal i.version_patchlevel ++ behind i.build suffix))
      ≡ (some (decimal i.version_patchlevel), behind i.build suffix)
  unfolding optional expect
  optional-patchlevel =
      rw
        (optional, many-decimal i.version_patchlevel (behind i.build suffix) (behind-Stops i.build))
        refl

  memdb_tail-dotted : memdb_tail i.name (dotted i (behind i.build suffix)) ≡ some captured
  unfolding captured memdb_tail version_captures dotted expect
  memdb_tail-dotted =
      rw
        (
          many-decimal i.version_major
              (b'.'
                ∷ (decimal i.version_minor
                    ++ (b'.' ∷ (decimal i.version_patchlevel ++ behind i.build suffix))))
              refl,
          many-decimal i.version_minor
              (b'.' ∷ (decimal i.version_patchlevel ++ behind i.build suffix)) refl,
          optional-patchlevel,
          optional_build i.build plain.build_plain,
          ends,
        )
        refl

  behind-unnamed :
      (build : Option Str)
      → ((b : Str) → build ≡ some b → (b ≢ []) × All (λ c. is_alnum c ≡ true) b)
      → (x : Str) → memdb_from x (behind build suffix) ≡ none
  behind-unnamed none h = memdb_from-none suffix tail-IsEnd.no_name
  behind-unnamed (some b) h =
      let k : All (λ c. is_alnum c ≡ true) b = (h b refl).1 in
      memdb_from-underscore (b ++ suffix)
        (All-append (λ c. (c == b'_') ≡ false) b suffix (alnum-NoUnderscore b k) tail-IsEnd.no_name)
        (λ y. memdb_tail-none y (b ++ suffix) (no_version b suffix k tail-IsEnd))

  number-unnamed :
      (n : ℕ) (v : Str)
      → ((x : Str) → memdb_from x v ≡ none)
      → (x : Str) → memdb_from x (decimal n ++ v) ≡ none
  number-unnamed n v h =
      memdb_from-append (decimal n) v (digits-NoUnderscore (decimal n) (decimal-digits n)) h

  dotted-unnamed : (x : Str) → memdb_from x (dotted i (behind i.build suffix)) ≡ none
  unfolding dotted
  dotted-unnamed = number-unnamed i.version_major _ (
      memdb_from-append (codes ".") _ (refl, tt)
        (number-unnamed i.version_minor _ (
          memdb_from-append (codes ".") _ (refl, tt)
            (number-unnamed i.version_patchlevel _ (behind-unnamed i.build plain.build_plain)))))

  make_id-behind :
      (build : Option Str)
      → i.build ≡ build
      → make_id i suffix ≡ i.name ++ (b'_' ∷ dotted i (behind build suffix))
  unfolding make_id
  make_id-behind none e = rw e refl
  make_id-behind (some b) e = rw e refl

  memdb_captures-make_id : memdb_captures (make_id i suffix) ≡ some captured
  unfolding memdb_captures
  memdb_captures-make_id = rw (make_id-behind i.build refl) (
      memdb_from-found i.name [] i.name (dotted i (behind i.build suffix)) captured refl
        plain.name_nonempty
        (All-imp (λ c. ((c == b'-') ≡ false) × ((c == b'/') ≡ false)) (λ c. (c == b'-') ≡ false)
          i.name (λ c h. h.0) plain.name_plain)
        dotted-unnamed memdb_tail-dotted)

  no_slash-number :
      (n : ℕ) (rest : Str)
      → All (λ c. (c == b'/') ≡ false) rest
      → All (λ c. (c == b'/') ≡ false) (decimal n ++ rest)
  no_slash-number n rest =
      All-append (λ c. (c == b'/') ≡ false) (decimal n) rest
        (All-imp (λ c. is_digit c ≡ true) (λ c. (c == b'/') ≡ false) (decimal n)
          (λ c k. ground arith) (decimal-digits n))

  no_slash-behind :
      (build : Option Str)
      → ((b : Str) → build ≡ some b → (b ≢ []) × All (λ c. is_alnum c ≡ true) b)
      → All (λ c. (c == b'/') ≡ false) (behind build suffix)
  no_slash-behind none h = tail-IsEnd.no_slash
  no_slash-behind (some b) h = (
    refl,
    All-append (λ c. (c == b'/') ≡ false) b suffix
        (All-imp (λ c. is_alnum c ≡ true) (λ c. (c == b'/') ≡ false) b (λ c k. ground arith)
          (h b refl).1)
        tail-IsEnd.no_slash,
  )

  no_slash-make_id : All (λ c. (c == b'/') ≡ false) (make_id i suffix)
  unfolding dotted
  no_slash-make_id = rw (make_id-behind i.build refl) (
      All-append (λ c. (c == b'/') ≡ false) i.name (b'_' ∷ dotted i (behind i.build suffix))
        (All-imp (λ c. ((c == b'-') ≡ false) × ((c == b'/') ≡ false)) (λ c. (c == b'/') ≡ false)
          i.name (λ c h. h.1) plain.name_plain)
        (
          refl,
          no_slash-number i.version_major _ (
            refl,
            no_slash-number i.version_minor _ (
              refl,
              no_slash-number i.version_patchlevel (behind i.build suffix)
                  (no_slash-behind i.build plain.build_plain),
            ),
          ),
        ))

  length-make_id : 3 ≤ length (make_id i suffix)
  unfolding dotted
  length-make_id =
      rw
        (
          make_id-behind i.build refl,
          length-append {0},
          length-append {0},
          length-append {0} (codes "."),
        )
        (omega (
          arith,
          length-to_radix_pos 10 (omega arith) i.version_major,
          length-to_radix_pos 10 (omega arith) i.version_minor,
        ))

  -- A description whose name is not empty and has neither a dash nor a slash, whose numbers fit
  -- 32 bits and whose build, if it has one, is of letters and digits, is read back from its id and
  -- from the name of its memdb file, compressed or not.
  pub from_filename-make_id : from_filename (make_id i suffix) ≡ some i
  unfolding from_filename
  from_filename-make_id =
      from_path-captured (make_id i suffix) (make_id i suffix) captured
        (file_name-components (make_id i suffix) no_slash-make_id length-make_id)
        memdb_captures-make_id
      ∙ sdk_of-captured
