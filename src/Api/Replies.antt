-- ===== src/Api/Replies.antt =====
-- src/api: the response that every outcome of a handler is answered with.
use symbolserver.Prelude.{◌≡◌, refl, ◌∙◌, if◌then◌else◌, length}
use symbolserver.Prelude.{Option, none, some, [], ◌∷◌, ◌++◌, Bool-cases, inl, inr}
use symbolserver.Prelude.Order.{nat_ord, list_ord}
use symbolserver.Text.{codes}
use symbolserver.Errors.{
  Result, ok, err, panic, undefined, ErrorKind, web, unknown_sdk, unknown_architecture,
  missing_architecture, unsupported_memdb_version, bad_memdb, config_error, bad_config_key,
  missing_config_key, bad_env_var, s3_unavailable, io, foreign, msg,
}
use symbolserver.Bytes.{Bytes}
use symbolserver.Sdk.{sdk_ord}
use symbolserver.Memdb.Stash.State.{World}
use symbolserver.Api.Types.{
  StatusCode, Data, Library, ApiResponse, get_status, new_response, describe, into_api_response,
  from_error, Sent, write_to_response, internal_error, description,
}
use symbolserver.Api.Health.{ServerContext}
use symbolserver.Api.Handlers.{Request, Parsed}
use symbolserver.Api.Server.{route, respond, handle, is_head}

-- The status that an error is answered with.
abbrev pub error_status : ErrorKind → StatusCode
error_status (web e) = get_status e
error_status _ = StatusCode.internal_server_error

-- The status that an outcome of a handler is answered with.
abbrev pub status_for : Result ApiResponse → Option StatusCode
status_for (ok r) = some r.status
status_for (err e) = some (error_status e)
status_for panic = none
status_for undefined = none

module _ (lib : Library)
    (serialises : (d : Data) → (bytes : Bytes) × (lib.to_vec d ≡ some bytes)) where
  response_ok :
      (d : Data) (status : StatusCode)
      → (resp : ApiResponse) × ((new_response lib d status ≡ ok resp) × (resp.status ≡ status))
  unfolding new_response
  response_ok d status =
      let (bytes, e) = serialises d in
      (record { body = bytes ++ b'\n' ∷ []; status = status }, (rw (e, new_response) refl, refl))

  from_error_ok :
      (e : ErrorKind)
      → (resp : ApiResponse) × ((from_error lib e ≡ ok resp) × (resp.status ≡ error_status e))
  unfolding from_error into_api_response
  from_error_ok (web e) = response_ok (description (describe lib e)) (get_status e)
  from_error_ok unknown_sdk =
      response_ok (description (internal_error lib unknown_sdk)) StatusCode.internal_server_error
  from_error_ok (unknown_architecture a) =
      response_ok (description (internal_error lib (unknown_architecture a)))
        StatusCode.internal_server_error
  from_error_ok (missing_architecture a) =
      response_ok (description (internal_error lib (missing_architecture a)))
        StatusCode.internal_server_error
  from_error_ok unsupported_memdb_version =
      response_ok (description (internal_error lib unsupported_memdb_version))
        StatusCode.internal_server_error
  from_error_ok bad_memdb =
      response_ok (description (internal_error lib bad_memdb)) StatusCode.internal_server_error
  from_error_ok config_error =
      response_ok (description (internal_error lib config_error)) StatusCode.internal_server_error
  from_error_ok (bad_config_key p m) =
      response_ok (description (internal_error lib (bad_config_key p m)))
        StatusCode.internal_server_error
  from_error_ok (missing_config_key p) =
      response_ok (description (internal_error lib (missing_config_key p)))
        StatusCode.internal_server_error
  from_error_ok (bad_env_var p m) =
      response_ok (description (internal_error lib (bad_env_var p m)))
        StatusCode.internal_server_error
  from_error_ok (s3_unavailable m) =
      response_ok (description (internal_error lib (s3_unavailable m)))
        StatusCode.internal_server_error
  from_error_ok (io k) =
      response_ok (description (internal_error lib (io k))) StatusCode.internal_server_error
  from_error_ok (foreign f) =
      response_ok (description (internal_error lib (foreign f))) StatusCode.internal_server_error
  from_error_ok (msg m) =
      response_ok (description (internal_error lib (msg m))) StatusCode.internal_server_error

  respond_ok :
      (from_slice : Bytes → Parsed) (ctx : ServerContext) (r : Result ApiResponse)
      (status : StatusCode)
      → status_for r ≡ some status
      → (resp : ApiResponse) × ((respond lib from_slice ctx r ≡ ok resp) × (resp.status ≡ status))
  unfolding respond
  respond_ok from_slice ctx (ok a) status h = (a, (refl, cc h))
  respond_ok from_slice ctx (err e) status h =
      let (resp, (made, at)) = from_error_ok e in
      let same : error_status e ≡ status = cc h in (resp, (rw (made, respond) refl, at ∙ same))
  respond_ok from_slice ctx panic status h = cc
  respond_ok from_slice ctx undefined status h = cc

-- A request is answered unless its handler panics or leaves what is defined, if responses can be
-- serialised and sent: the world is as the handler leaves it, the status is that of the response
-- or of the error, and the body is left out if and only if the method is HEAD.
pub handle-answers :
    (lib : Library) (from_slice : Bytes → Parsed) (ctx : ServerContext) (req : Request)
    (w w' : World) (r : Result ApiResponse) (status : StatusCode)
    → ((d : Data) → (bytes : Bytes) × (lib.to_vec d ≡ some bytes))
    → route lib from_slice ctx req w ≡ (r, w')
    → status_for r ≡ some status
    → (sent : Sent) × ((handle lib from_slice ctx req none w ≡ (ok sent, w'))
        × ((sent.status ≡ status)
            × ((body : Bytes) × ((sent.content_length ≡ length body)
                  × (sent.body ≡ (if is_head req.method then none else some body))))))
unfolding handle write_to_response
handle-answers lib from_slice ctx req w w' r status serialises routed known =
    let (resp, (made, at)) = respond_ok lib serialises from_slice ctx r status known in
    elim (Bool-cases (is_head req.method)) [
      | inl head ↦ (
        record {
          status = resp.status;
          server = codes "sentry-symbolserver/" ++ lib.crate_version;
          content_length = length resp.body;
          body = none;
        },
        (rw (routed, made, head) refl, (at, (resp.body, (refl, rw head refl)))),
      )
      | inr other ↦ (
        record {
          status = resp.status;
          server = codes "sentry-symbolserver/" ++ lib.crate_version;
          content_length = length resp.body;
          body = some resp.body;
        },
        (rw (routed, made, other) refl, (at, (resp.body, (refl, rw other refl)))),
      )
    ]
