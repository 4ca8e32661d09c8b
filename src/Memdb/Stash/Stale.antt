-- ===== src/Memdb/Stash/Stale.antt =====
-- src/memdb/stash.rs: what a sync does to the loaded database of an SDK that is gone from the
-- bucket.
use symbolserver.Prelude.{◌≡◌, refl, ◌∙◌, Bool, true, false, arith}
use symbolserver.Prelude.{
  Option, none, some, List, [], ◌∷◌, any, Bool-cases, Option-cases, inl, inr,
}
use symbolserver.Prelude.Order.{◌=?◌, =?_refl, nat_ord, list_ord}
use symbolserver.Prelude.Map
use symbolserver.Prelude.Map.{Map}
use symbolserver.Prelude.Sort.{sort_by, any-sort_by}
use symbolserver.Errors.{Result, ok, err, panic, undefined, ErrorKind}
use symbolserver.Bytes.{Bytes}
use symbolserver.Sdk.{SdkInfo, sdk_ord, memdb_filename}
use symbolserver.Memdb.Read.{MemDb}
use symbolserver.Memdb.Stash.State.{
  RemoteSdk, SdkSyncState, get_sdk, state_update_sdk, state_remove_sdk, bump, World, Env, M, after,
  same_sdk, StateFile,
}
use symbolserver.Memdb.Stash.Sync.{
  read_local_state, save_local_state, fetch_remote_state, sdk_is_ignored, update_sdk, evict,
  refresh, record_change, sync_found, sync_one, sync_loop, discard, delete_found, delete_loop,
  descending, infos, sync_with, sync,
}
use symbolserver.Memdb.Stash.Queries.{get_memdb}

module _ (env : Env) (info : SdkInfo) (m : MemDb) where
  -- The database of the SDK is loaded.
  abbrev Kept : World → Type 0
  Kept w = Map.get info w.memdbs ≡ some m

  -- A step that leaves the database where it is, whatever its outcome.
  abbrev Keeps : {A : Type 0} → M A → Type 0
  Keeps f = (w : World) → Kept w → Kept (f w).1

  after-Kept :
      {A B : Type 0} (f : A → M B) (r : Result A × World)
      → Kept r.1
      → ((a : A) → Keeps (f a))
      → Kept (after f r).1
  after-Kept f (ok a, w) h k = k a w h
  after-Kept f (err e, w) h k = h
  after-Kept f (panic, w) h k = h
  after-Kept f (undefined, w) h k = h

  read_local_state-Keeps : Keeps read_local_state
  unfolding read_local_state
  read_local_state-Keeps w h = go w.state_file refl
    where
      go : (f : StateFile) → w.state_file ≡ f → Kept (read_local_state w).1
      go StateFile.missing e = rw (e, read_local_state) h
      go StateFile.unreadable e = rw (e, read_local_state) h
      go StateFile.malformed e = rw (e, read_local_state) h
      go (StateFile.saved s) e = rw (e, read_local_state) h

  save_local_state-Keeps : (s : SdkSyncState) → Keeps (save_local_state env s)
  unfolding save_local_state
  save_local_state-Keeps s w h = elim (Option-cases (env.save s)) [
    | inl e ↦ rw (e, save_local_state) h
    | inr (k, e) ↦ rw (e, save_local_state) h
  ]

  update_sdk-Keeps : (sdk : RemoteSdk) → Keeps (update_sdk env sdk)
  unfolding update_sdk
  update_sdk-Keeps sdk w h = go (env.download sdk) refl
    where
      go :
          (d : Result (Bytes × Option ErrorKind))
          → env.download sdk ≡ d
          → Kept (update_sdk env sdk w).1
      go (ok (bytes, none)) e = rw (e, update_sdk) h
      go (ok (bytes, some k)) e = rw (e, update_sdk) h
      go (err k) e = rw (e, update_sdk) h
      go panic e = rw (e, update_sdk) h
      go undefined e = rw (e, update_sdk) h

  evict-Keeps : (i : SdkInfo) → (i =? info) ≡ false → Keeps (evict env i)
  unfolding evict
  evict-Keeps i other w h = Map.get-remove info i w.memdbs ∙ rw other h

  refresh-Keeps :
      (local : SdkSyncState) (i : SdkInfo) (sdk : RemoteSdk)
      → (i =? info) ≡ false
      → Keeps (refresh env local i sdk)
  unfolding refresh
  refresh-Keeps local i sdk other w h = go (get_sdk local i) refl
    where
      go : (o : Option RemoteSdk) → get_sdk local i ≡ o → Kept (refresh env local i sdk w).1
      go none e =
          rw (e, refresh)
            (after-Kept _ (update_sdk env sdk w) (update_sdk-Keeps sdk w h) (λ _ v k. k))
      go (some old) e = elim (Bool-cases (same_sdk old sdk)) [
        | inl same ↦ rw (e, same, refresh) h
        | inr changed ↦
            rw (e, changed, refresh)
              (after-Kept _ (update_sdk env sdk w) (update_sdk-Keeps sdk w h)
                (λ _ v k. after-Kept _ (evict env i v) (evict-Keeps i other v k) (λ _ u j. j)))
      ]

  sync_found-Keeps :
      (local : SdkSyncState) (i : SdkInfo) (sdk : Option RemoteSdk)
      → (i =? info) ≡ false
      → Keeps (sync_found env local i sdk)
  unfolding sync_found record_change
  sync_found-Keeps local i none other w h = h
  sync_found-Keeps local i (some sdk) other w h =
      after-Kept _ (refresh env local i sdk w) (refresh-Keeps local i sdk other w h) recorded
    where
      recorded : (changed : Bool) → Keeps (record_change env local sdk changed)
      recorded true v k =
          let local' = bump (state_update_sdk local sdk) in
          after-Kept _ (save_local_state env local' v) (save_local_state-Keeps local' v k)
            (λ _ u j. j)
      recorded false v k = k

  sync_one-Keeps :
      (remote local : SdkSyncState) (i : SdkInfo)
      → (i =? info) ≡ false
      → Keeps (sync_one env remote local i)
  unfolding sync_one
  sync_one-Keeps remote local i other w h = elim (Bool-cases (sdk_is_ignored env i)) [
    | inl e ↦ rw (e, sync_one) h
    | inr e ↦ rw (e, sync_one) (sync_found-Keeps local i (get_sdk remote i) other w h)
  ]

  sync_loop-Keeps :
      (remote local : SdkSyncState) (del is : List SdkInfo)
      → any (λ i. i =? info) is ≡ false
      → Keeps (sync_loop env remote local del is)
  unfolding sync_loop
  sync_loop-Keeps remote local del [] absent w h = h
  sync_loop-Keeps remote local del (i ∷ is) absent w h =
      after-Kept _ (sync_one env remote local i w)
        (sync_one-Keeps remote local i (ground (arith, absent)) w h)
        (λ local'. sync_loop-Keeps remote local' (discard i del) is (ground (arith, absent)))

  -- The state has forgotten an SDK before it is asked for it, so nothing is removed.
  delete_loop-Keeps :
      (local : SdkSyncState) (del : List SdkInfo) → Keeps (delete_loop env local del)
  unfolding delete_loop delete_found get_sdk state_remove_sdk
  delete_loop-Keeps local [] w h = h
  delete_loop-Keeps local (i ∷ del) w h =
      let gone : Map.get (memdb_filename i) (Map.remove (memdb_filename i) local.sdks) ≡ none =
        Map.get-remove (memdb_filename i) (memdb_filename i) local.sdks
        ∙ rw (=?_refl (memdb_filename i)) refl in
      rw gone (delete_loop-Keeps (state_remove_sdk local i) del w h)

  sync_with-Keeps :
      (local remote : SdkSyncState)
      → any (λ i. i =? info) (infos remote.sdks) ≡ false
      → Keeps (sync_with env local remote)
  unfolding sync_with
  sync_with-Keeps local remote absent w h =
      let is = sort_by descending (infos remote.sdks) in
      after-Kept _ (sync_loop env remote local (infos local.sdks) is w)
        (sync_loop-Keeps remote local (infos local.sdks) is
          (any-sort_by descending (λ i. i =? info) (infos remote.sdks) ∙ absent) w h)
        (λ (local', del) v k.
          after-Kept _ (delete_loop env local' del v) (delete_loop-Keeps local' del v k)
            (λ local''. save_local_state-Keeps (bump local'')))

get_memdb_loaded :
    (info : SdkInfo) (m : MemDb) (w : World)
    → Map.get info w.memdbs ≡ some m
    → get_memdb info w ≡ (ok m, w)
unfolding get_memdb
get_memdb_loaded info m w loaded = rw (get_memdb, loaded) refl

-- If the database of an SDK is loaded and the list from S3 does not have the SDK, then after a
-- sync, whatever its outcome, the stash still serves this database.
pub get_memdb-sync :
    (env : Env) (w : World) (info : SdkInfo) (m : MemDb) (remote : SdkSyncState)
    → fetch_remote_state env ≡ ok remote
    → any (λ i. i =? info) (infos remote.sdks) ≡ false
    → Map.get info w.memdbs ≡ some m
    → get_memdb info (sync env w).1 ≡ (ok m, (sync env w).1)
unfolding sync
get_memdb-sync env w info m remote fetched absent loaded = get_memdb_loaded info m (sync env w).1 (
    rw (sync, fetched)
      (after-Kept env info m _ (read_local_state w) (read_local_state-Keeps env info m w loaded)
        (λ local. sync_with-Keeps env info m local remote absent)))
