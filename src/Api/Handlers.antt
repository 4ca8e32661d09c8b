-- ===== src/Api/Handlers.antt =====
-- src/api/handlers.rs, and the loading of request data in src/api/server.rs.
use symbolserver.Prelude.{ℕ, ◌*◌, Bool, true, false, ltb, if◌then◌else◌}
use symbolserver.Prelude.{Option, none, some, List, [], ◌∷◌, map}
use symbolserver.Prelude.Map
use symbolserver.Prelude.Map.{Map}
use symbolserver.Errors.{Str, Result, ok, err, ErrorKind, ApiError, web}
use symbolserver.Bytes.{Bytes}
use symbolserver.Memdb.Types.{Uuid}
use symbolserver.Memdb.Read.{MemDb, Symbol}
use symbolserver.Memdb.Lookup.{lookup_by_uuid, lookup_by_object_name}
use symbolserver.Sdk.{SdkInfo, sdk_ord, sdk_id}
use symbolserver.Memdb.Stash.State.{M, ◌>>=◌, ◌>>◌, pure, lift}
use symbolserver.Memdb.Stash.Queries.{list_sdks, get_memdb}
use symbolserver.Memdb.Stash.Fuzzy.{fuzzy_match_sdk_id}
use symbolserver.Api.Types.{
  StatusCode, Library, ApiResponse, new_response, health, symbols, sdks, version,
}
use symbolserver.Api.Health.{ServerContext, get_healthcheck_result}

pub data Method : Type 0 where
  get head post : Method
  other_method : Str → Method

pub data RequestUri : Type 0 where
  absolute_path : Str → RequestUri
  other_uri : RequestUri

-- A request; `body` is what `read_to_end` gives.
pub record Request : Type 0 where
  pub method : Method
  pub uri : RequestUri
  pub content_length : Option ℕ
  pub body : Result Bytes

-- `Symbol`, as a request has it.
pub record SymbolQuery : Type 0 where
  pub object_uuid : Option Uuid
  pub object_name : Option Str
  pub addr : ℕ

pub record SymbolLookupRequest : Type 0 where
  pub sdk_id : Str
  pub cpu_name : Str
  pub symbols : List SymbolQuery

-- `serde_json::from_slice`: the data, or the text of the error.
pub data Parsed : Type 0 where
  parsed : SymbolLookupRequest → Parsed
  malformed : Str → Parsed

-- The test of `assert_method!`: the method asked for, and `HEAD` where it is `GET`.
abbrev pub is_get : Method → Bool
is_get Method.get = true
is_get Method.head = true
is_get _ = false

abbrev pub is_post : Method → Bool
is_post Method.post = true
is_post _ = false

unfoldable pub assert_method : Bool → Result (Unit {0})
assert_method true = ok tt
assert_method false = err (web ApiError.method_not_allowed)

of_parsed : Parsed → Result SymbolLookupRequest
of_parsed (parsed data_) = ok data_
of_parsed (malformed e) = err (web (ApiError.bad_json e))

-- `load_request_data`. The body is read after the length that the client declares is accepted.
unfoldable pub load_request_data : (Bytes → Parsed) → Request → Result SymbolLookupRequest
unfolding of_parsed
load_request_data from_slice req = elim req.content_length [
  | none ↦ err (web ApiError.bad_request)
  | some length_ ↦
      if ltb (1024 * 1024 * 10) length_
      then err (web ApiError.payload_too_large)
      else symbolserver.Errors.◌>>=◌ req.body (λ body. of_parsed (from_slice body))
]

-- `LocalMemDbCache::get_memdb`: the databases that one request has used.
unfoldable pub cached_memdb : Map SdkInfo MemDb → SdkInfo → M (MemDb × Map SdkInfo MemDb)
cached_memdb cache info = elim (Map.get info cache) [
  | some memdb ↦ pure (memdb, cache)
  | none ↦ do memdb ← get_memdb info; pure (memdb, Map.insert info memdb cache)
]

-- The loops over the SDKs, with the lookup that they differ in: the first answer counts.
unfoldable pub first_match :
    (MemDb → Result (Option Symbol))
    → Map SdkInfo MemDb
    → List SdkInfo
    → M (Option Symbol × Map SdkInfo MemDb)
first_match lookup cache [] = pure (none, cache)
first_match lookup cache (info ∷ rest) = do
  (memdb, cache') ← cached_memdb cache info
  found ← lift (lookup memdb)
  elim found [ some sym ↦ pure (some sym, cache') | none ↦ first_match lookup cache' rest ]

-- One query. A UUID rules, and a query with neither UUID nor name has no answer.
unfoldable pub answer :
    Str → List SdkInfo → SymbolQuery → Map SdkInfo MemDb → M (Option Symbol × Map SdkInfo MemDb)
answer cpu_name infos symq cache = elim symq.object_uuid [
  | some uuid ↦ first_match (λ db. lookup_by_uuid db uuid symq.addr) cache infos
  | none ↦ elim symq.object_name [
    | some name ↦ first_match (λ db. lookup_by_object_name db name cpu_name symq.addr) cache infos
    | none ↦ pure (none, cache)
  ]
]

unfoldable pub answers :
    Str → List SdkInfo → List SymbolQuery → Map SdkInfo MemDb → M (List (Option Symbol))
answers cpu_name infos [] cache = pure []
answers cpu_name infos (symq ∷ rest) cache = do
  (sym, cache') ← answer cpu_name infos symq cache
  syms ← answers cpu_name infos rest cache'
  pure (sym ∷ syms)

module _ (lib : Library) where
  unfoldable pub healthcheck_handler : ServerContext → Request → M ApiResponse
  healthcheck_handler ctx req =
      let rv = get_healthcheck_result ctx in
      do
        lift (assert_method (is_get req.method))
        lift (
            new_response lib (health rv)
              (if rv.is_healthy then StatusCode.ok_200 else StatusCode.service_unavailable))

  -- The handler, behind the match of the SDK.
  unfoldable pub lookup_in_sdks : SymbolLookupRequest → List SdkInfo → M ApiResponse
  lookup_in_sdks data_ [] = lift (err (web ApiError.sdk_not_found))
  lookup_in_sdks data_ (info ∷ infos) = do
    rv ← answers data_.cpu_name (info ∷ infos) data_.symbols []
    lift (new_response lib (symbols rv) StatusCode.ok_200)

  unfoldable pub lookup_symbol_handler : (Bytes → Parsed) → Request → M ApiResponse
  lookup_symbol_handler from_slice req = do
    lift (assert_method (is_post req.method))
    data_ ← lift (load_request_data from_slice req)
    infos ← fuzzy_match_sdk_id data_.sdk_id
    lookup_in_sdks data_ infos

  unfoldable pub list_sdks_handler : Request → M ApiResponse
  list_sdks_handler req = do
    lift (assert_method (is_get req.method))
    known ← list_sdks
    lift (new_response lib (sdks (map sdk_id known)) StatusCode.ok_200)

  unfoldable pub version_handler : Request → M ApiResponse
  version_handler req = do
    lift (assert_method (is_get req.method))
    lift (new_response lib (version lib.crate_version) StatusCode.ok_200)
