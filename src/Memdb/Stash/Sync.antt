-- ===== src/Memdb/Stash/Sync.antt =====
-- src/memdb/stash.rs: `sync`, and the steps that it is made of.
use Prim.Native.Nat.{Ordering}
use symbolserver.Prelude.{Bool, true, false, not, if◌then◌else◌}
use symbolserver.Prelude.{Option, none, some, List, [], ◌∷◌, map}
use symbolserver.Prelude.Order.{◌=?◌, nat_ord, list_ord}
use symbolserver.Prelude.Map
use symbolserver.Prelude.Map.{Map, values}
use symbolserver.Prelude.Sort.{sort_by}
use symbolserver.Errors.{Str, Result, ok, err, panic, undefined, IoKind, io, msg}
use symbolserver.Text.{codes}
use symbolserver.Sdk.{SdkInfo, sdk_ord, sdk_cmp, memdb_filename, sdk_id}
use symbolserver.Utils.IgnorePatterns.{is_match}
use symbolserver.Memdb.Stash.State.{
  RemoteSdk, same_sdk, SdkSyncState, default_state, get_sdk, state_update_sdk, state_remove_sdk,
  bump, StateFile, Env, M, ◌>>=◌, ◌>>◌, pure, lift,
}

unfoldable pub read_local_state : M SdkSyncState
read_local_state w = elim w.state_file [
  | StateFile.missing ↦ (ok default_state, record w { local_state = some default_state })
  | StateFile.unreadable ↦ (err (msg (codes "Error loading sync state")), w)
  | StateFile.malformed ↦ (err (msg (codes "Parsing error on loading sync state")), w)
  | StateFile.saved s ↦ (ok s, record w { local_state = some s })
]

unfoldable pub get_local_state : M SdkSyncState
get_local_state w =
    let read = read_local_state w in elim w.local_state [ some s ↦ (ok s, w) | none ↦ read ]

-- The loop of `fetch_remote_state`.
unfoldable pub insert_all : Map Str RemoteSdk → List RemoteSdk → Map Str RemoteSdk
insert_all sdks [] = sdks
insert_all sdks (sdk ∷ rest) = insert_all (Map.insert (memdb_filename sdk.info) sdk sdks) rest

-- `to_delete.remove`, on a set.
unfoldable pub discard : SdkInfo → List SdkInfo → List SdkInfo
discard info [] = []
discard info (i ∷ rest) = let kept = discard info rest in if i =? info then kept else i ∷ kept

-- `sort_by(|a, b| b.cmp(a))`
abbrev pub descending : SdkInfo → SdkInfo → Ordering
descending a b = sdk_cmp b a

abbrev pub infos : Map Str RemoteSdk → List SdkInfo
infos sdks = map (λ (s : RemoteSdk). s.info) (values sdks)

module _ (env : Env) where
  unfoldable pub save_local_state : SdkSyncState → M (Unit {0})
  save_local_state s w = elim (env.save s) [
    | some e ↦ (err e, w)
    | none ↦ (ok tt, record w { state_file = StateFile.saved s; local_state = some s })
  ]

  unfoldable pub fetch_remote_state : Result SdkSyncState
  fetch_remote_state = elim env.upstream [
    | ok sdks ↦ ok (record { sdks = insert_all [] sdks; revision = none })
    | err e ↦ err e
    | panic ↦ panic
    | undefined ↦ undefined
  ]

  unfoldable pub sdk_is_ignored : SdkInfo → Bool
  sdk_is_ignored info = is_match env.ignore_patterns (sdk_id info)

  unfoldable pub update_sdk : RemoteSdk → M (Unit {0})
  update_sdk sdk w = elim (env.download sdk) [
    | ok (bytes, stopped) ↦
        let w' = record w { files = Map.insert (memdb_filename sdk.info) bytes w.files } in
        elim stopped [ none ↦ (ok tt, w') | some e ↦ (err e, w') ]
    | err e ↦ (err e, w)
    | panic ↦ (panic, w)
    | undefined ↦ (undefined, w)
  ]

  -- A file that is not there counts as removed.
  unfoldable pub remove_sdk : RemoteSdk → M (Unit {0})
  remove_sdk sdk w = elim (env.unlink (memdb_filename sdk.info)) [
    | none ↦ (ok tt, record w { files = Map.remove (memdb_filename sdk.info) w.files })
    | some IoKind.not_found ↦ (ok tt, w)
    | some e ↦ (err (io e), w)
  ]

  -- `memdbs.write().unwrap().remove(info)`
  unfoldable pub evict : SdkInfo → M (Unit {0})
  evict info w = (ok tt, record w { memdbs = Map.remove info w.memdbs })

  -- Bringing one SDK up to date; the answer is `changed_something`.
  unfoldable pub refresh : SdkSyncState → SdkInfo → RemoteSdk → M Bool
  refresh local info sdk = elim (get_sdk local info) [
    | some local_sdk ↦
        if not (same_sdk local_sdk sdk)
        then (do update_sdk sdk; evict info; pure true)
        else pure false
    | none ↦ do update_sdk sdk; pure true
  ]

  -- `if changed_something`
  unfoldable pub record_change : SdkSyncState → RemoteSdk → Bool → M SdkSyncState
  record_change local sdk true =
      let local' = bump (state_update_sdk local sdk) in do save_local_state local'; pure local'
  record_change local sdk false = pure local

  -- The `unwrap` of `remote_state.get_sdk`.
  unfoldable pub sync_found : SdkSyncState → SdkInfo → Option RemoteSdk → M SdkSyncState
  sync_found local info none = lift panic
  sync_found local info (some sdk) = do
    changed ← refresh local info sdk
    record_change local sdk changed

  -- The body of the first loop of `sync`, but for `to_delete`.
  unfoldable pub sync_one : SdkSyncState → SdkSyncState → SdkInfo → M SdkSyncState
  sync_one remote local info =
      if not (sdk_is_ignored info) then sync_found local info (get_sdk remote info) else pure local

  unfoldable pub sync_loop :
      SdkSyncState → SdkSyncState → List SdkInfo → List SdkInfo → M (SdkSyncState × List SdkInfo)
  sync_loop remote local to_delete [] = pure (local, to_delete)
  sync_loop remote local to_delete (info ∷ rest) = do
    local' ← sync_one remote local info
    sync_loop remote local' (discard info to_delete) rest

  -- The body of the second loop: the state forgets the SDK, and then is asked for it.
  unfoldable pub delete_found : Option RemoteSdk → M (Unit {0})
  delete_found none = pure tt
  delete_found (some sdk) = do remove_sdk sdk; evict sdk.info

  unfoldable pub delete_loop : SdkSyncState → List SdkInfo → M SdkSyncState
  delete_loop local [] = pure local
  delete_loop local (info ∷ rest) =
      let local' = state_remove_sdk local info in
      do delete_found (get_sdk local' info); delete_loop local' rest

  unfoldable pub sync_with : SdkSyncState → SdkSyncState → M (Unit {0})
  sync_with local remote = do
    (local', to_delete) ←
        sync_loop remote local (infos local.sdks) (sort_by descending (infos remote.sdks))
    local'' ← delete_loop local' to_delete
    save_local_state (bump local'')

  unfoldable pub sync : M (Unit {0})
  sync = do local ← read_local_state; remote ← lift fetch_remote_state; sync_with local remote
