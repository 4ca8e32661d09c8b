-- ===== src/Tests/Requests.antt =====
-- Requests to a stash with one SDK, whose database is in its file, and matches of SDK ids.
use symbolserver.Prelude.{ℕ, ◌≡◌, refl, true, false, none, some, List, [], ◌∷◌}
use symbolserver.Prelude.{if◌then◌else◌, length, any}
use symbolserver.Prelude.Order.{◌=?◌, nat_ord, list_ord}
use symbolserver.Prelude.Map
use symbolserver.Prelude.Sort.{first}
use symbolserver.Errors.{ok, err, web, ApiError}
use symbolserver.Bytes.{Bytes}
use symbolserver.Text.{codes, to_radix}
use symbolserver.Memdb.Read.{load_memdb}
use symbolserver.Sdk.{SdkInfo, sdk_ord, sdk_cmp, memdb_filename}
use symbolserver.Sdk.Filename.{from_filename}
use symbolserver.Memdb.Stash.State.{SdkSyncState, World, StateFile}
use symbolserver.Memdb.Stash.Sync.{get_local_state, read_local_state}
use symbolserver.Memdb.Stash.Fuzzy.{fuzzy_matches}
use symbolserver.Memdb.Stash.FuzzyLaws.{first-fuzzy_matches, IsNearest, fuzzy_matches-IsNearest}
use symbolserver.Api.Types.{Library, StatusCode, Sent, get_status}
use symbolserver.Api.Health.{ServerContext}
use symbolserver.Api.Handlers.{
  Request, Method, absolute_path, malformed, SymbolQuery, answers, version_handler, assert_method,
}
use symbolserver.Api.Server.{route, handle, is_head}
use symbolserver.Api.Loading.{IsLoadable, load_request_data-IsLoadable}
use symbolserver.Prelude.{◌↔◌}
use symbolserver.Api.Handlers.{SymbolLookupRequest, parsed, load_request_data}
use symbolserver.Api.Answers.{answers-all_found, all_found, found_for}
use symbolserver.Memdb.Stash.Serving.{served, Serves}
use symbolserver.Tests.Lookup.{uuid, db, loads, inside}
use symbolserver.Memdb.Stash.State.{get_sdk}
use symbolserver.Api.Replies.{handle-answers}

abbrev sdk : ℕ → SdkInfo
sdk n = record {
  name = codes "iOS";
  version_major = 10;
  version_minor = n;
  version_patchlevel = 0;
  build = none;
}

abbrev known : List SdkInfo
known = sdk 3 ∷ sdk 1 ∷ sdk 2 ∷ []

parsed_id : from_filename (codes "iOS_10.2") ≡ some (sdk 2)
unfolding from_filename
parsed_id = refl

knows : any (λ i. i =? sdk 2) known ≡ true
unfolding sdk_cmp
knows = refl

first-fuzzy_matches_example : first (fuzzy_matches known (codes "iOS_10.2")) ≡ some (sdk 2)
first-fuzzy_matches_example = first-fuzzy_matches known (codes "iOS_10.2") (sdk 2) parsed_id knows

-- The other two SDKs are no match of the id, and are answered with.
fuzzy_matches-IsNearest_example : IsNearest known (sdk 2) (fuzzy_matches known (codes "iOS_10.2"))
fuzzy_matches-IsNearest_example = fuzzy_matches-IsNearest known (codes "iOS_10.2") (sdk 2) parsed_id

-- A stash that has the file of `Tests/Lookup.antt`, and has loaded nothing yet.
abbrev stored : SdkSyncState
stored = record {
  sdks =
      (memdb_filename db.info, record { filename = codes "f"; info = db.info; size = 1; etag = [] })
      ∷ [];
  revision = some 1;
}

abbrev world : World
world = record {
  files = (memdb_filename db.info, db.backing) ∷ [];
  state_file = StateFile.saved stored;
  local_state = none;
  memdbs = [];
}

abbrev query : SymbolQuery
query = record { object_uuid = some uuid; object_name = none; addr = 40 }

serves : Serves stored world.files world
unfolding get_local_state read_local_state Map.get
serves = record { state = refl; same_files = refl; loaded = λ i m at. cc at }

serves_db : served stored world.files db.info ≡ ok db
unfolding get_sdk Map.get sdk_cmp memdb_filename to_radix load_memdb
serves_db = loads

-- The symbol around the address.
answered :
    found_for (served stored world.files) (codes "x86") (db.info ∷ sdk 1 ∷ []) query
    ≡ ok (
        some
          (record { object_uuid = uuid; object_name = codes "o"; symbol = codes "g"; addr = 32 }))
answered = rw (serves_db, inside) refl

-- The second SDK is unknown to the stash, and is asked for only where the first has no answer.
answers-all_found_example :
    (answers (codes "x86") (db.info ∷ sdk 1 ∷ []) (query ∷ query ∷ []) [] world).0
    ≡ all_found
        (found_for (served stored world.files) (codes "x86") (db.info ∷ sdk 1 ∷ []))
        (query ∷ query ∷ [])
unfolding Map.get
answers-all_found_example =
    answers-all_found stored world.files (codes "x86") (db.info ∷ sdk 1 ∷ []) (query ∷ query ∷ [])
      [] world (λ i m at. cc at) serves

abbrev lib : Library
lib = record {
  to_vec = λ _. some (codes "{}");
  display = λ _. codes "error";
  crate_version = codes "1.3.2";
}

abbrev ctx : ServerContext
ctx = record { enable_sync = false; cached_memdb_status = none }

abbrev req : Request
req = record {
  method = Method.post;
  uri = absolute_path (codes "/version");
  content_length = none;
  body = ok [];
}

routed :
    route lib (λ _. malformed []) ctx req world ≡ (err (web ApiError.method_not_allowed), world)
unfolding route version_handler assert_method
routed = refl

handle-answers_example :
    (sent : Sent) × ((handle lib (λ _. malformed []) ctx req none world ≡ (ok sent, world))
      × ((sent.status ≡ StatusCode.method_not_allowed)
          × ((body : Bytes) × ((sent.content_length ≡ length body)
                × (sent.body ≡ (if is_head req.method then none else some body))))))
unfolding get_status
handle-answers_example =
    handle-answers lib (λ _. malformed []) ctx req world world
      (err (web ApiError.method_not_allowed)) StatusCode.method_not_allowed
      (λ d. (codes "{}", refl)) routed refl

abbrev lookup : SymbolLookupRequest
lookup = record { sdk_id = codes "iOS_10.2"; cpu_name = codes "arm64"; symbols = query ∷ [] }

abbrev lookup_req : Request
lookup_req = record {
  method = Method.post;
  uri = absolute_path (codes "/lookup");
  content_length = some 2;
  body = ok (codes "{}");
}

loads_lookup : load_request_data (λ _. parsed lookup) lookup_req ≡ ok lookup
unfolding load_request_data
loads_lookup = refl

load_request_data-IsLoadable_example :
    (load_request_data (λ _. parsed lookup) lookup_req ≡ ok lookup)
    ↔ IsLoadable (λ _. parsed lookup) lookup_req lookup
load_request_data-IsLoadable_example =
    load_request_data-IsLoadable (λ _. parsed lookup) lookup_req lookup
