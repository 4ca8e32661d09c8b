-- ===== src/Tests/Stash.antt =====
-- A sync that updates one SDK, adds another, keeps an ignored one and drops a fourth.
use symbolserver.Prelude.{ℕ, ◌<◌, ◌≡◌, refl, Bool, true, false, none, some, [], ◌∷◌}
use symbolserver.Prelude.{arith, if◌then◌else◌, all, Bool-cases, inl, inr, sym, ◌∙◌}
use symbolserver.Prelude.Order.{nat_ord, list_ord, ◌=?◌, eq_of_=?, =?_refl}
use symbolserver.Prelude.Map
use symbolserver.Prelude.Map.{Map, values}
use symbolserver.Prelude.Sort.{sort_by}
use symbolserver.Errors.{Str, Result, ok}
use symbolserver.Text.{codes, to_radix}
use symbolserver.Sdk.{sdk_ord, sdk_cmp, sdk_id, memdb_filename}
use symbolserver.Utils.IgnorePatterns.{is_match}
use symbolserver.Memdb.Stash.State.{
  RemoteSdk, same_sdk, SdkSyncState, get_sdk, state_update_sdk, state_remove_sdk, bump, StateFile,
  World, Env, revision_or_zero,
}
use symbolserver.Memdb.Stash.Sync.{
  read_local_state, insert_all, discard, save_local_state, fetch_remote_state, sdk_is_ignored,
  update_sdk, remove_sdk, evict, refresh, record_change, sync_found, sync_one, sync_loop,
  delete_found, delete_loop, sync_with, sync,
}
use symbolserver.Memdb.Stash.Keyed.{IsKeyed, get-Keyed}
use symbolserver.Memdb.Stash.SyncLoop.{Reliable}
use symbolserver.Memdb.Stash.SyncLaws.{
  IsSynced, Distinct, HasRoom, sync-IsSynced, fetch_remote_state-IsKeyed,
}
use symbolserver.Memdb.Stash.Queries.{SyncStatus, get_sync_status, get_memdb}
use symbolserver.Api.Health.{ServerContext, check_health, get_healthcheck_result}
use symbolserver.Api.Checked.{check_health-sync}
use symbolserver.Memdb.Stash.Stale.{get_memdb-sync}
use symbolserver.Memdb.Stash.Sync.{infos}
use symbolserver.Memdb.Read.{MemDb}
use symbolserver.Prelude.{any}
use symbolserver.Memdb.Stash.StatusLaws.{IsUpToDate, get_sync_status-sync}

abbrev pub sdk : ℕ → RemoteSdk
sdk n = record {
  filename = codes "f";
  info = record {
    name = codes "iOS";
    version_major = 10;
    version_minor = n;
    version_patchlevel = 0;
    build = none;
  };
  size = 1;
  etag = codes "e";
}

-- The same SDK as `sdk 1`, uploaded anew.
abbrev pub fresh : RemoteSdk
fresh = record (sdk 1) { etag = codes "g" }

abbrev pub key : ℕ → Str
key n = memdb_filename (sdk n).info

abbrev pub local : SdkSyncState
local = record { sdks = (key 1, sdk 1) ∷ (key 4, sdk 4) ∷ []; revision = some 6 }

abbrev pub env : Env
env = record {
  upstream = ok (fresh ∷ sdk 2 ∷ sdk 3 ∷ []);
  download = λ s. ok (s.etag, none);
  save = λ _. none;
  unlink = λ _. none;
  ignore_patterns = (false, λ s. s =? sdk_id (sdk 3).info) ∷ [];
}

abbrev pub world : World
world = record { files = []; state_file = StateFile.saved local; local_state = none; memdbs = [] }

unfoldable pub run : World → Result (Unit {0}) × World
unfolding sync sync_with sync_loop sync_one sync_found refresh record_change update_sdk remove_sdk
    evict delete_loop delete_found fetch_remote_state insert_all save_local_state read_local_state
    discard sdk_is_ignored is_match get_sdk state_update_sdk state_remove_sdk bump same_sdk sort_by
    sdk_cmp Map.get Map.insert Map.remove memdb_filename sdk_id to_radix
run w = sync env w

-- The ignored SDK is not fetched, and the dropped one is forgotten.
run_state :
    (run world).1.state_file
    ≡ StateFile.saved (record { sdks = (key 1, fresh) ∷ (key 2, sdk 2) ∷ []; revision = some 9 })
unfolding run
run_state = refl

pub local-IsKeyed : IsKeyed local.sdks
unfolding run
local-IsKeyed = record { nodup = (refl, (refl, tt)); keyed = (refl, (refl, tt)) }

unfoldable pub remote : SdkSyncState
unfolding run
remote = record { sdks = insert_all [] (fresh ∷ sdk 2 ∷ sdk 3 ∷ []); revision = none }

pub fetched : fetch_remote_state env ≡ ok remote
unfolding run remote
fetched = refl

pub reliable : Reliable env
reliable = record { downloads = λ s. (s.etag, refl); saves = λ s. refl }

-- What holds for the values of a map holds for what a lookup finds.
all-get :
    (p : RemoteSdk → Bool) (m : Map Str RemoteSdk) (k : Str) (s : RemoteSdk)
    → all p (values m) ≡ true
    → Map.get k m ≡ some s
    → p s ≡ true
unfolding Map.get
all-get p [] k s h at = cc
all-get p ((j, r) ∷ m) k s h at = elim (Bool-cases (j =? k)) [
  | inl e ↦
      let found : some r ≡ some s = rw e at at in
      let same : r ≡ s = cc found in rw (← same) (ground (arith, h))
  | inr e ↦
      let found : Map.get k m ≡ some s = rw e at at in all-get p m k s (ground (arith, h)) found
]

agree : RemoteSdk → RemoteSdk → Bool
agree s r = if memdb_filename s.info =? memdb_filename r.info then s.info =? r.info else true

-- `Distinct`, from a run over all pairs.
all-Distinct :
    (local remote : Map Str RemoteSdk)
    → IsKeyed local
    → IsKeyed remote
    → all (λ s. all (agree s) (values remote)) (values local) ≡ true
    → Distinct local remote
unfolding agree
all-Distinct local remote lk rk h k s r at_local at_remote =
    let name : memdb_filename s.info ≡ memdb_filename r.info =
      get-Keyed k local s lk.keyed at_local ∙ sym (get-Keyed k remote r rk.keyed at_remote) in
    let agreed : agree s r ≡ true =
      all-get (agree s) remote k r
        (all-get (λ s. all (agree s) (values remote)) local k s h at_local) at_remote in
    eq_of_=? s.info r.info (rw (name, =?_refl (memdb_filename r.info)) at agreed)

pub distinct : Distinct local.sdks remote.sdks
unfolding run remote agree
distinct =
    all-Distinct local.sdks remote.sdks local-IsKeyed
      (fetch_remote_state-IsKeyed env remote fetched) refl

room : HasRoom local remote
unfolding run remote
room = omega arith

sync-IsSynced_example :
    (w' : World) × (sync env world ≡ (ok tt, w'))
    × ((done : IsSynced env local remote w') × (revision_or_zero local
          < revision_or_zero done.state))
unfolding run
sync-IsSynced_example =
    sync-IsSynced env world (record world { local_state = some local }) local remote reliable refl
      fetched local-IsKeyed distinct room

get_sync_status-sync_example :
    (w' : World) × (w'' : World) × (status : SyncStatus) × ((sync env world ≡ (ok tt, w'))
      × ((get_sync_status env w' ≡ (ok status, w''))
          × (IsUpToDate status × (revision_or_zero local < status.revision))))
unfolding run
get_sync_status-sync_example =
    get_sync_status-sync env world (record world { local_state = some local }) local remote reliable
      refl fetched local-IsKeyed distinct room

abbrev memdb : MemDb
memdb = record { info = (sdk 4).info; backing = [] }

-- SDK 4 is not in the bucket, and its database is loaded.
abbrev serving : World
serving = record world { memdbs = ((sdk 4).info, memdb) ∷ [] }

gone : any (λ i. i =? (sdk 4).info) (infos remote.sdks) ≡ false
unfolding run remote
gone = refl

served : Map.get (sdk 4).info serving.memdbs ≡ some memdb
unfolding run
served = refl

get_memdb-sync_example :
    get_memdb (sdk 4).info (sync env serving).1 ≡ (ok memdb, (sync env serving).1)
get_memdb-sync_example = get_memdb-sync env serving (sdk 4).info memdb remote fetched gone served

abbrev ctx : ServerContext
ctx = record { enable_sync = true; cached_memdb_status = none }

check_health-sync_example :
    (w' : World) × (w'' : World) × (ctx' : ServerContext) × ((sync env world ≡ (ok tt, w'))
      × ((check_health env ctx w' ≡ (ok tt, (ctx', w'')))
          × (((get_healthcheck_result ctx').sync_lag ≡ 0)
              × ((get_healthcheck_result ctx').is_offline ≡ false))))
unfolding run
check_health-sync_example =
    check_health-sync env ctx world (record world { local_state = some local }) local remote refl
      reliable refl fetched local-IsKeyed distinct
