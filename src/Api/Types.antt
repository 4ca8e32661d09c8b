-- ===== src/Api/Types.antt =====
-- src/api/types.rs: responses and API errors. Serialisation to JSON, the text of an error, and
-- the version of the crate are parameters.
use symbolserver.Prelude.{ℕ, Bool, Option, none, some, List, [], ◌∷◌, ◌++◌, length, if◌then◌else◌}
use symbolserver.Errors.{Str, Result, ok, err, ErrorKind, ApiError, web, msg}
use symbolserver.Bytes.{Bytes}
use symbolserver.Text.{codes}
use symbolserver.Memdb.Read.{Symbol}

-- The codes of `hyper::status::StatusCode` that the server answers with.
pub data StatusCode : Type 0 where
  ok_200 bad_request not_found method_not_allowed payload_too_large : StatusCode
  internal_server_error service_unavailable : StatusCode

pub record ApiErrorDescription : Type 0 where
  pub ty : Str
  pub message : Str

-- `Result from a healthcheck.`
pub record HealthCheckResponse : Type 0 where
  pub is_offline : Bool
  pub is_healthy : Bool
  pub sync_lag : ℕ

-- What the server serialises.
pub data Data : Type 0 where
  health : HealthCheckResponse → Data
  -- `SymbolResponse`; `Symbol::from` keeps every field.
  symbols : List (Option Symbol) → Data
  sdks : List Str → Data
  version : Str → Data
  description : ApiErrorDescription → Data

-- What other crates do for a response: `serde_json::to_vec`, the `Display` that `error_chain!`
-- writes, and `CARGO_PKG_VERSION`.
pub record Library : Type 0 where
  pub to_vec : Data → Option Bytes
  pub display : ErrorKind → Str
  pub crate_version : Str

pub record ApiResponse : Type 0 where
  pub body : Bytes
  pub status : StatusCode

-- What reaches the client; every response is declared as JSON.
pub record Sent : Type 0 where
  pub status : StatusCode
  pub server : Str
  pub content_length : ℕ
  pub body : Option Bytes

-- `ApiError::get_status`
unfoldable pub get_status : ApiError → StatusCode
get_status ApiError.not_found = StatusCode.not_found
get_status ApiError.bad_request = StatusCode.bad_request
get_status ApiError.method_not_allowed = StatusCode.method_not_allowed
get_status ApiError.payload_too_large = StatusCode.payload_too_large
get_status (ApiError.bad_json _) = StatusCode.bad_request
get_status ApiError.sdk_not_found = StatusCode.not_found
get_status (ApiError.internal_server_error _) = StatusCode.internal_server_error

module _ (lib : Library) where
  -- The message of an error that no API error describes.
  abbrev pub internal_error : ErrorKind → ApiErrorDescription
  internal_error e = record {
    ty = codes "internal_server_error";
    message = codes "The server failed with an internal error: " ++ lib.display e;
  }

  unfoldable pub describe : ApiError → ApiErrorDescription
  describe ApiError.not_found = record {
    ty = codes "not_found";
    message = codes "The requested resource was not found";
  }
  describe ApiError.bad_request = record {
    ty = codes "bad_request";
    message = codes "The client sent a bad request";
  }
  describe ApiError.method_not_allowed = record {
    ty = codes "method_not_allowed";
    message = codes "This HTTP method is not supported here";
  }
  describe ApiError.payload_too_large = record {
    ty = codes "payload_too_large";
    message = codes "The request payload is too large";
  }
  describe (ApiError.bad_json e) = record {
    ty = codes "bad_json";
    message = codes "The client sent bad json: " ++ e;
  }
  describe ApiError.sdk_not_found = record {
    ty = codes "sdk_not_found";
    message = codes "The requested SDK was not found";
  }
  describe (ApiError.internal_server_error e) = internal_error e

  -- `ApiResponse::new`
  unfoldable pub new_response : Data → StatusCode → Result ApiResponse
  new_response data_ status = elim (lib.to_vec data_) [
    | none ↦ err (msg (codes "Failed to serialize response for client"))
    | some body ↦ ok (record { body = body ++ b'\n' ∷ []; status = status })
  ]

  unfoldable pub into_api_response : ApiError → Result ApiResponse
  into_api_response e = new_response (description (describe e)) (get_status e)

  -- `ApiResponse::from_error`
  unfoldable pub from_error : ErrorKind → Result ApiResponse
  from_error (web e) = into_api_response e
  from_error e = new_response (description (internal_error e)) StatusCode.internal_server_error

  -- `write_to_response`; `send_error` is what sending the body fails with.
  unfoldable pub write_to_response : ApiResponse → Bool → Option ErrorKind → Result Sent
  write_to_response self is_head send_error =
      let head : Option Bytes → Sent = λ body. record {
        status = self.status;
        server = codes "sentry-symbolserver/" ++ lib.crate_version;
        content_length = length self.body;
        body = body;
      } in
      if is_head
      then ok (head none)
      else (elim send_error [ some e ↦ err e | none ↦ ok (head (some self.body)) ])
