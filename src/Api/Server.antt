-- ===== src/Api/Server.antt =====
-- src/api/server.rs: the routing of a request, and the response that leaves the server.
use symbolserver.Prelude.{Bool, true, false, Option, if◌then◌else◌}
use symbolserver.Prelude.Order.{◌=?◌, nat_ord, list_ord}
use symbolserver.Errors.{Result, ok, err, panic, undefined, ErrorKind, ApiError, web}
use symbolserver.Bytes.{Bytes}
use symbolserver.Text.{codes}
use symbolserver.Memdb.Stash.State.{World, M, lift}
use symbolserver.Api.Types.{Library, ApiResponse, from_error, Sent, write_to_response}
use symbolserver.Api.Health.{ServerContext}
use symbolserver.Api.Handlers.{
  Method, Request, Parsed, absolute_path, other_uri, healthcheck_handler, lookup_symbol_handler,
  list_sdks_handler, version_handler,
}

-- `bad_request` and `not_found`
abbrev pub refuse : ApiError → M ApiResponse
refuse e = lift (err (web e))

abbrev pub is_head : Method → Bool
is_head Method.head = true
is_head _ = false

-- `unwrap`
abbrev pub unwrap : {A : Type 0} → Result A → Result A
unwrap (err _) = panic
unwrap (ok a) = ok a
unwrap panic = panic
unwrap undefined = undefined

module _ (lib : Library) (from_slice : Bytes → Parsed) (ctx : ServerContext) where
  -- The handler that the path selects.
  unfoldable pub route : Request → M ApiResponse
  route req = elim req.uri [
    | other_uri ↦ refuse ApiError.bad_request
    | absolute_path path ↦
        if path =? codes "/health"
        then healthcheck_handler lib ctx req
        else if path =? codes "/lookup"
        then lookup_symbol_handler lib from_slice req
        else if path =? codes "/sdks"
        then list_sdks_handler lib req
        else if path =? codes "/version"
        then version_handler lib req
        else refuse ApiError.not_found
  ]

  -- An error of the handler becomes a response.
  unfoldable pub respond : Result ApiResponse → Result ApiResponse
  respond (ok result) = ok result
  respond (err e) = unwrap (from_error lib e)
  respond panic = panic
  respond undefined = undefined

  -- The closure of `handle_threads`.
  unfoldable pub handle : Request → Option ErrorKind → World → Result (Sent) × World
  handle req send_error w =
      let (r, w') = route req w in
      (
        (elim (respond r) [
          | ok result ↦ unwrap (write_to_response lib result (is_head req.method) send_error)
          | err e ↦ panic
          | panic ↦ panic
          | undefined ↦ undefined
        ]),
        w',
      )
