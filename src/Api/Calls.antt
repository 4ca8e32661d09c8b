-- ===== src/Api/Calls.antt =====
-- src/api/handlers.rs: the calls of the stash and of the handlers keep what holds of the stash.
use symbolserver.Prelude.{◌≡◌, refl, Bool, true, false}
use symbolserver.Prelude.{Option, none, some, List, [], ◌∷◌, Option-cases, inl, inr, ◌⊎◌}
use symbolserver.Prelude.{if◌then◌else◌, length}
use symbolserver.Prelude.Map
use symbolserver.Prelude.Map.{Map}
use symbolserver.Prelude.Sort.{sort_by}
use symbolserver.Prelude.Order.{◌=?◌, nat_ord, list_ord}
use symbolserver.Errors.{Str, Result, err, ApiError, unknown_sdk, IoKind, io, web}
use symbolserver.Bytes.{Bytes}
use symbolserver.Text.{codes}
use symbolserver.Sdk.{SdkInfo, sdk_ord, sdk_cmp, memdb_filename}
use symbolserver.Memdb.Read.{MemDb, Symbol, load_memdb}
use symbolserver.Memdb.Lookup.{lookup_by_uuid, lookup_by_object_name}
use symbolserver.Memdb.Stash.State.{get_sdk, World, Env, M, after, ◌>>=◌, ◌>>◌, pure, lift}
use symbolserver.Memdb.Stash.Sync.{read_local_state, get_local_state, fetch_remote_state, infos}
use symbolserver.Memdb.Stash.Queries.{
  compare_states, get_sync_status, sdk_count, list_sdks, open_memdb, cache_memdb,
  get_memdb_uncached, get_memdb,
}
use symbolserver.Memdb.Stash.Fuzzy.{fuzzy_matches, fuzzy_match_sdk_id}
use symbolserver.Memdb.Stash.Sound.{
  IsSound, Safe, Any, pure-Safe, lift-Safe, after-Safe, weaken-Safe, read_local_state-Safe,
  get_local_state-Safe, Same-IsSound,
}
use symbolserver.Api.Types.{Library, ApiResponse}
use symbolserver.Api.Handlers.{
  Request, RequestUri, Parsed, absolute_path, other_uri, assert_method, load_request_data,
  cached_memdb, first_match, answer, answers, SymbolQuery, SymbolLookupRequest, healthcheck_handler,
  lookup_in_sdks, lookup_symbol_handler, list_sdks_handler, version_handler, is_get, is_post,
}
use symbolserver.Api.Health.{ServerContext}
use symbolserver.Api.Server.{route}

RequestUri-cases : (u : RequestUri) → (u ≡ other_uri) ⊎ ((path : Str) × (u ≡ absolute_path path))
RequestUri-cases other_uri = inl refl
RequestUri-cases (absolute_path path) = inr (path, refl)

-- A call, and what follows it whatever it returns.
pub then-Safe :
    {A B : Type 0} (f : A → M B) (out : Result A × World)
    → Safe Any out
    → ((a : A) (w : World) → IsSound w → Safe Any (f a w))
    → Safe Any (after f out)
then-Safe f out h k = after-Safe f out h (λ a w s _. k a w s)

pub value-Safe : {A : Type 0} (a : A) (w : World) → IsSound w → Safe Any (pure a w)
value-Safe a w h = pure-Safe Any a w h tt

pub result-Safe : {A : Type 0} (r : Result A) (w : World) → IsSound w → Safe Any (lift r w)
result-Safe r w h = lift-Safe Any r w h (λ a e. tt)

state-Safe : (w : World) → IsSound w → Safe Any (get_local_state w)
state-Safe w h = weaken-Safe (get_local_state w) (get_local_state-Safe w h) (λ a w held. tt)

pub get_sync_status-Safe : (env : Env) (w : World) → IsSound w → Safe Any (get_sync_status env w)
unfolding get_sync_status
get_sync_status-Safe env w h =
    then-Safe (λ local. lift (compare_states env local (fetch_remote_state env)))
      (read_local_state w)
      (weaken-Safe (read_local_state w) (read_local_state-Safe w h) (λ a w held. tt))
      (λ local w₁ h₁. result-Safe (compare_states env local (fetch_remote_state env)) w₁ h₁)

pub sdk_count-Safe : (w : World) → IsSound w → Safe Any (sdk_count w)
unfolding sdk_count
sdk_count-Safe w h =
    then-Safe (λ local. pure (length local.sdks)) (get_local_state w) (state-Safe w h)
      (λ local w₁ h₁. value-Safe (length local.sdks) w₁ h₁)

list_sdks-Safe : (w : World) → IsSound w → Safe Any (list_sdks w)
unfolding list_sdks
list_sdks-Safe w h =
    then-Safe (λ local. pure (sort_by sdk_cmp (infos local.sdks))) (get_local_state w)
      (state-Safe w h) (λ local w₁ h₁. value-Safe (sort_by sdk_cmp (infos local.sdks)) w₁ h₁)

fuzzy_match_sdk_id-Safe : (id : Str) (w : World) → IsSound w → Safe Any (fuzzy_match_sdk_id id w)
unfolding fuzzy_match_sdk_id
fuzzy_match_sdk_id-Safe id w h =
    then-Safe (λ local. pure (fuzzy_matches (infos local.sdks) id)) (get_local_state w)
      (state-Safe w h) (λ local w₁ h₁. value-Safe (fuzzy_matches (infos local.sdks) id) w₁ h₁)

open_memdb-Safe : (info : SdkInfo) (w : World) → IsSound w → Safe Any (open_memdb info w)
unfolding open_memdb
open_memdb-Safe info w h = elim (Option-cases (Map.get (memdb_filename info) w.files)) [
  | inl e ↦ rw (open_memdb, e) (result-Safe (err (io IoKind.not_found)) w h)
  | inr (bytes, e) ↦ rw (open_memdb, e) (result-Safe (load_memdb bytes) w h)
]

get_memdb-Safe : (info : SdkInfo) (w : World) → IsSound w → Safe Any (get_memdb info w)
unfolding get_memdb get_memdb_uncached
get_memdb-Safe info w h = elim (Option-cases (Map.get info w.memdbs)) [
  | inr (db, e) ↦ rw (get_memdb, e) (value-Safe db w h)
  | inl e ↦
      rw (get_memdb, e)
        (then-Safe
          (λ local. elim (get_sdk local info) [
            | none ↦ lift (err unknown_sdk)
            | some _ ↦ do memdb ← open_memdb info; cache_memdb info memdb
          ])
          (get_local_state w) (state-Safe w h)
          (λ local w₁ h₁. elim (Option-cases (get_sdk local info)) [
            | inl none_there ↦ rw none_there (result-Safe (err unknown_sdk) w₁ h₁)
            | inr (sdk, there) ↦ rw there (
                then-Safe (cache_memdb info) (open_memdb info w₁) (open_memdb-Safe info w₁ h₁)
                  (λ db w₂ h₂. record {
                    sound = Same-IsSound w₂ (cache_memdb info db w₂).1 refl refl h₂;
                    returns = tt;
                  }))
          ]))
]

cached_memdb-Safe :
    (cache : Map SdkInfo MemDb) (info : SdkInfo) (w : World)
    → IsSound w
    → Safe Any (cached_memdb cache info w)
unfolding cached_memdb
cached_memdb-Safe cache info w h = elim (Option-cases (Map.get info cache)) [
  | inr (db, e) ↦ rw (cached_memdb, e) (value-Safe (db, cache) w h)
  | inl e ↦
      rw (cached_memdb, e)
        (then-Safe (λ memdb. pure (memdb, Map.insert info memdb cache)) (get_memdb info w)
          (get_memdb-Safe info w h)
          (λ memdb w₁ h₁. value-Safe (memdb, Map.insert info memdb cache) w₁ h₁))
]

first_match-Safe :
    (lookup : MemDb → Result (Option Symbol)) (cache : Map SdkInfo MemDb) (is : List SdkInfo)
    (w : World)
    → IsSound w
    → Safe Any (first_match lookup cache is w)
unfolding first_match
first_match-Safe lookup cache [] w h = value-Safe (none, cache) w h
first_match-Safe lookup cache (info ∷ rest) w h =
    then-Safe
      (λ p. lift (lookup p.0) >>= λ found. elim found [
        | some sym ↦ pure (some sym, p.1)
        | none ↦ first_match lookup p.1 rest
      ])
      (cached_memdb cache info w) (cached_memdb-Safe cache info w h)
      (λ p w₁ h₁.
        then-Safe
          (λ found. elim found [
            | some sym ↦ pure (some sym, p.1)
            | none ↦ first_match lookup p.1 rest
          ])
          (lift (lookup p.0) w₁) (result-Safe (lookup p.0) w₁ h₁)
          (λ found w₂ h₂. elim (Option-cases found) [
            | inr (sym, e) ↦ rw e (value-Safe (some sym, p.1) w₂ h₂)
            | inl e ↦ rw e (first_match-Safe lookup p.1 rest w₂ h₂)
          ]))

answer-Safe :
    (cpu : Str) (is : List SdkInfo) (q : SymbolQuery) (cache : Map SdkInfo MemDb) (w : World)
    → IsSound w
    → Safe Any (answer cpu is q cache w)
unfolding answer
answer-Safe cpu is q cache w h = elim (Option-cases q.object_uuid) [
  | inr (uuid, e) ↦ rw e (first_match-Safe (λ db. lookup_by_uuid db uuid q.addr) cache is w h)
  | inl e ↦ elim (Option-cases q.object_name) [
    | inr (name, e') ↦
        rw (e, e') (first_match-Safe (λ db. lookup_by_object_name db name cpu q.addr) cache is w h)
    | inl e' ↦ rw (e, e') (value-Safe (none, cache) w h)
  ]
]

answers-Safe :
    (cpu : Str) (is : List SdkInfo) (qs : List SymbolQuery) (cache : Map SdkInfo MemDb) (w : World)
    → IsSound w
    → Safe Any (answers cpu is qs cache w)
unfolding answers
answers-Safe cpu is [] cache w h = value-Safe [] w h
answers-Safe cpu is (q ∷ qs) cache w h =
    then-Safe (λ p. answers cpu is qs p.1 >>= λ syms. pure (p.0 ∷ syms)) (answer cpu is q cache w)
      (answer-Safe cpu is q cache w h)
      (λ p w₁ h₁.
        then-Safe (λ syms. pure (p.0 ∷ syms)) (answers cpu is qs p.1 w₁)
          (answers-Safe cpu is qs p.1 w₁ h₁) (λ syms w₂ h₂. value-Safe (p.0 ∷ syms) w₂ h₂))

if-Safe :
    {A : Type 0} (b : Bool) (m n : M A) (w : World)
    → Safe Any (m w)
    → Safe Any (n w)
    → Safe Any ((if b then m else n) w)
if-Safe true m n w h k = h
if-Safe false m n w h k = k

-- A test of the method, and the rest of a handler.
checked-Safe :
    (r : Result (Unit {0})) (m : M ApiResponse) (w : World)
    → IsSound w
    → ((w : World) → IsSound w → Safe Any (m w))
    → Safe Any ((lift r >> m) w)
checked-Safe r m w h k = then-Safe (λ u. m) (lift r w) (result-Safe r w h) (λ u w₁ h₁. k w₁ h₁)

module _ (lib : Library) (from_slice : Bytes → Parsed) (ctx : ServerContext) where
  lookup_in_sdks-Safe :
      (data_ : SymbolLookupRequest) (is : List SdkInfo) (w : World)
      → IsSound w
      → Safe Any (lookup_in_sdks lib data_ is w)
  unfolding lookup_in_sdks
  lookup_in_sdks-Safe data_ [] w h = result-Safe (err (web ApiError.sdk_not_found)) w h
  lookup_in_sdks-Safe data_ (info ∷ is) w h =
      then-Safe _ (answers data_.cpu_name (info ∷ is) data_.symbols [] w)
        (answers-Safe data_.cpu_name (info ∷ is) data_.symbols [] w h)
        (λ rv w₁ h₁. result-Safe _ w₁ h₁)

  handlers-Safe :
      (req : Request) (w : World)
      → IsSound w
      → Safe Any (healthcheck_handler lib ctx req w)
        × Safe Any (lookup_symbol_handler lib from_slice req w)
        × Safe Any (list_sdks_handler lib req w)
        × Safe Any (version_handler lib req w)
  unfolding healthcheck_handler lookup_symbol_handler list_sdks_handler version_handler
  handlers-Safe req w h = (
    checked-Safe (assert_method (is_get req.method)) _ w h (λ w₁ h₁. result-Safe _ w₁ h₁),
    checked-Safe (assert_method (is_post req.method)) _ w h (λ w₁ h₁.
        then-Safe _ (lift (load_request_data from_slice req) w₁)
          (result-Safe (load_request_data from_slice req) w₁ h₁)
          (λ data_ w₂ h₂.
            then-Safe (lookup_in_sdks lib data_) (fuzzy_match_sdk_id data_.sdk_id w₂)
              (fuzzy_match_sdk_id-Safe data_.sdk_id w₂ h₂)
              (λ is w₃ h₃. lookup_in_sdks-Safe data_ is w₃ h₃))),
    checked-Safe (assert_method (is_get req.method)) _ w h (λ w₁ h₁.
        then-Safe _ (list_sdks w₁) (list_sdks-Safe w₁ h₁) (λ known w₂ h₂. result-Safe _ w₂ h₂)),
    checked-Safe (assert_method (is_get req.method)) _ w h (λ w₁ h₁. result-Safe _ w₁ h₁),
  )

  pub route-Safe :
      (req : Request) (w : World) → IsSound w → Safe Any (route lib from_slice ctx req w)
  unfolding route
  route-Safe req w h =
      let (health_, lookup_, sdks_, version_) = handlers-Safe req w h in
      elim (RequestUri-cases req.uri) [
        | inl e ↦ rw (route, e) (result-Safe (err (web ApiError.bad_request)) w h)
        | inr (path, e) ↦
            rw (route, e)
              (if-Safe (path =? codes "/health") _ _ w health_ (
                if-Safe (path =? codes "/lookup") _ _ w lookup_ (
                  if-Safe (path =? codes "/sdks") _ _ w sdks_ (
                    if-Safe (path =? codes "/version") _ _ w version_
                      (result-Safe (err (web ApiError.not_found)) w h)))))
      ]
