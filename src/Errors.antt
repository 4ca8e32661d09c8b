-- ===== src/Errors.antt =====
-- src/errors.rs, and the error values of src/api/types.rs: the error kinds of the crate, and the
-- outcome of a fallible Rust function.
pub mod Laws
use symbolserver.Prelude.{ℕ, List}

-- A Rust `String` or `str` as the list of its UTF-8 bytes.
abbrev pub Str : Type 0
Str = List ℕ

-- `io::ErrorKind`, as far as the code tells kinds apart.
pub data IoKind : Type 0 where
  not_found interrupted other : IoKind

-- The causes that other crates report (the `foreign_links` of the macro).
pub data Foreign : Type 0 where
  walk_dir zip utf8_error from_utf8_error yaml_error xml_error url_parse_error web_error : Foreign
  json_error : Foreign
  -- `mach_object::Error`; the flag tells a `LoadError`, the kind that the object iterator skips.
  mach_load_error mach_other : Foreign

mutual
  pub data ErrorKind : Type 0 where
    unknown_sdk : ErrorKind
    unknown_architecture : Str → ErrorKind
    missing_architecture : Str → ErrorKind
    unsupported_memdb_version : ErrorKind
    bad_memdb : ErrorKind
    config_error : ErrorKind
    bad_config_key : Str → Str → ErrorKind
    missing_config_key : Str → ErrorKind
    bad_env_var : Str → Str → ErrorKind
    s3_unavailable : Str → ErrorKind
    io : IoKind → ErrorKind
    foreign : Foreign → ErrorKind
    web : ApiError → ErrorKind
    msg : Str → ErrorKind

  pub data ApiError : Type 0 where
    not_found bad_request method_not_allowed payload_too_large sdk_not_found : ApiError
    -- The error of `serde_json`, as it is displayed.
    bad_json : Str → ApiError
    internal_server_error : ErrorKind → ApiError

-- What a call of a Rust function comes to: a value, an `Err`, a panic, or a read outside the
-- memory of the file, which Rust leaves undefined.
pub data Result {ℓ} (A : Type ℓ) : Type ℓ where
  ok : A → Result A
  err : ErrorKind → Result A
  panic : Result A
  undefined : Result A

-- The `?` operator.
infixl 5 ◌>>=◌ ◌>>◌
abbrev pub ◌>>=◌ {ℓ κ} : {A : Type ℓ} {B : Type κ} → Result A → (A → Result B) → Result B
ok a >>= f = f a
err e >>= f = err e
panic >>= f = panic
undefined >>= f = undefined

abbrev pub ◌>>◌ {ℓ} : {B : Type ℓ} → Result (Unit {0}) → Result B → Result B
m >> k = m >>= λ _. k
