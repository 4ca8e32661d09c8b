-- ===== src/Api/Loading.antt =====
-- src/api/server.rs: which requests `load_request_data` accepts.
use symbolserver.Prelude.{
  ℕ, ◌*◌, ◌≤◌, ◌≡◌, refl, ap, ◌∙◌, false, arith, Bool-cases, ◌↔◌, inl, inr, ltb,
}
use symbolserver.Prelude.{Option, none, some}
use symbolserver.Errors.{Result, ok, err, panic, undefined, web, ApiError}
use symbolserver.Bytes.{Bytes}
use symbolserver.Api.Handlers.{
  Request, Parsed, parsed, malformed, SymbolLookupRequest, load_request_data,
}

-- A request with a declared length of at most 10 MiB, a body that can be read, and JSON that can
-- be parsed to the data.
pub record IsLoadable (from_slice : Bytes → Parsed) (req : Request) (data_ : SymbolLookupRequest)
    : Type 0 where
  pub length_ : ℕ
  pub bytes : Bytes
  pub declared : req.content_length ≡ some length_
  pub small : length_ ≤ 1024 * 1024 * 10
  pub readable : req.body ≡ ok bytes
  pub valid : from_slice bytes ≡ parsed data_

module _ (from_slice : Bytes → Parsed) (req : Request) (data_ : SymbolLookupRequest)
    (h : load_request_data from_slice req ≡ ok data_) where
  loaded-IsLoadable :
      (c : Option ℕ) (b : Result Bytes)
      → req.content_length ≡ c
      → req.body ≡ b
      → IsLoadable from_slice req data_
  unfolding load_request_data
  loaded-IsLoadable none b ec eb =
      let h' : err (web ApiError.bad_request) ≡ ok data_ = rw (load_request_data, ec) at h in
      absurd (cc h')
  loaded-IsLoadable (some n) b ec eb = elim (Bool-cases (ltb (1024 * 1024 * 10) n)) [
    | inl big ↦
        let h' : err (web ApiError.payload_too_large) ≡ ok data_ =
          rw (load_request_data, ec, big) at h in
        absurd (cc h')
    | inr small ↦ body b eb small
  ]
    where
      text :
          (bytes : Bytes) (p : Parsed)
          → req.body ≡ ok bytes
          → from_slice bytes ≡ p
          → ltb (1024 * 1024 * 10) n ≡ false
          → IsLoadable from_slice req data_
      text bytes (malformed e) eb ep small =
          let h' : err (web (ApiError.bad_json e)) ≡ ok data_ =
            rw (load_request_data, ec, small, eb, ep) at h in
          absurd (cc h')
      text bytes (parsed d) eb ep small =
          let h' : ok d ≡ ok data_ = rw (load_request_data, ec, small, eb, ep) at h in
          let same : d ≡ data_ = cc h' in
          record {
            length_ = n;
            bytes = bytes;
            declared = ec;
            small = ground (arith, small);
            readable = eb;
            valid = ep ∙ ap parsed same;
          }

      body :
          (b : Result Bytes)
          → req.body ≡ b
          → ltb (1024 * 1024 * 10) n ≡ false
          → IsLoadable from_slice req data_
      body (ok bytes) eb small = text bytes (from_slice bytes) eb refl small
      body (err e) eb small =
          let h' : err e ≡ ok data_ = rw (load_request_data, ec, small, eb) at h in absurd (cc h')
      body panic eb small =
          let h' : panic ≡ ok data_ = rw (load_request_data, ec, small, eb) at h in absurd (cc h')
      body undefined eb small =
          let h' : undefined ≡ ok data_ = rw (load_request_data, ec, small, eb) at h in
          absurd (cc h')

-- Data is loaded from a request exactly if it declares a length of at most 10 MiB, its body can
-- be read, and the body can be parsed to this data.
pub load_request_data-IsLoadable :
    (from_slice : Bytes → Parsed) (req : Request) (data_ : SymbolLookupRequest)
    → (load_request_data from_slice req ≡ ok data_) ↔ IsLoadable from_slice req data_
unfolding load_request_data
load_request_data-IsLoadable from_slice req data_ = (
  λ h. loaded-IsLoadable from_slice req data_ h req.content_length req.body refl refl,
  λ l. rw (load_request_data, l.declared, l.readable, l.valid) (ground (arith, l.small)),
)
