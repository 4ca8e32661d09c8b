-- ===== src/Memdb/Stash/StatusLaws.antt =====
-- src/memdb/stash.rs: the health report after a sync.
use symbolserver.Prelude.{◌+◌, ◌<◌, ◌≡◌, refl, ap, ◌∙◌, true, false, ltb}
use symbolserver.Prelude.{some, List, [], ◌∷◌, All, All-imp, Bool-cases, ◌⊎◌, inl, inr}
use symbolserver.Prelude.Order.{◌=?◌, =?_refl, eq_of_=?, nat_ord, list_ord}
use symbolserver.Prelude.Map
use symbolserver.Prelude.Map.{Map, values, NodupKeys}
use symbolserver.Errors.{Str, ok}
use symbolserver.Sdk.{memdb_filename}
use symbolserver.Memdb.Stash.State.{
  RemoteSdk, SdkSyncState, get_sdk, revision_or_zero, World, Env, StateFile, >>=_ok,
}
use symbolserver.Memdb.Stash.Sync.{read_local_state, fetch_remote_state, sdk_is_ignored, sync}
use symbolserver.Memdb.Stash.Keyed.{IsKeyed, Keyed}
use symbolserver.Memdb.Stash.SyncLoop.{Reliable, same_sdk_refl}
use symbolserver.Memdb.Stash.SyncLaws.{
  Distinct, HasRoom, synced_entry, sync_ok, fetch_remote_state-IsKeyed,
}
use symbolserver.Memdb.Stash.Queries.{
  SyncStatus, lag, Counts, zero_counts, count_loop, is_healthy, status_of, compare_states,
  get_sync_status,
}

-- What a keyed map holds is found in it, under its own name.
values_found :
    (m : Map Str RemoteSdk)
    → NodupKeys m
    → Keyed m
    → All (λ (s : RemoteSdk). Map.get (memdb_filename s.info) m ≡ some s) (values m)
unfolding Map.get
values_found [] h k = tt
values_found ((j, s) ∷ m) (fresh, h) (key, k) = (
  rw (key, =?_refl j) refl,
  All-imp (λ (r : RemoteSdk). Map.get (memdb_filename r.info) m ≡ some r) _ (values m)
      (λ r at. elim (Bool-cases (j =? memdb_filename r.info)) [
        | inr e ↦ rw e at
        | inl e ↦
            let there : Map.get j m ≡ some r = rw (eq_of_=? j (memdb_filename r.info) e) at in
            absurd (cc (fresh, there))
      ])
      (values_found m h k),
)

module _ (env : Env) where
  -- An SDK that `count_loop` does not complain of.
  abbrev Settled : SdkSyncState → RemoteSdk → Type 0
  Settled local s = (sdk_is_ignored env s.info ≡ true) ⊎ (get_sdk local s.info ≡ some s)

  count_loop-Settled :
      (local : SdkSyncState) (xs : List RemoteSdk) (c : Counts)
      → All (Settled local) xs
      → ((count_loop env local xs c).missing ≡ c.missing)
        × ((count_loop env local xs c).different ≡ c.different)
  unfolding count_loop
  count_loop-Settled local [] c h = (refl, refl)
  count_loop-Settled local (s ∷ xs) c (h, hs) = elim (Bool-cases (sdk_is_ignored env s.info)) [
    | inl e ↦ rw (e, count_loop) (count_loop-Settled local xs c hs)
    | inr e ↦
        let found : get_sdk local s.info ≡ some s = elim h [
          | inl e' ↦ absurd (cc (e, e'))
          | inr f ↦ f
        ] in
        rw (e, found, same_sdk_refl s, count_loop)
          (count_loop-Settled local xs (record c { remote_total = c.remote_total + 1 }) hs)
  ]

  settled :
      (local remote state : SdkSyncState)
      → IsKeyed remote.sdks
      → ((k : Str) → Map.get k state.sdks ≡ synced_entry env local.sdks remote.sdks k)
      → All (Settled state) (values remote.sdks)
  unfolding get_sdk
  settled local remote state rk entries =
      All-imp (λ (r : RemoteSdk). Map.get (memdb_filename r.info) remote.sdks ≡ some r) _
        (values remote.sdks)
        (λ r at. elim (Bool-cases (sdk_is_ignored env r.info)) [
          | inl e ↦ inl e
          | inr e ↦ inr (entries (memdb_filename r.info) ∙ rw (at, synced_entry, e) refl)
        ])
        (values_found remote.sdks rk.nodup rk.keyed)

-- What the health check finds: nothing missing or different. It calls this
-- healthy if the bucket has an SDK that is not ignored.
pub record IsUpToDate (status : SyncStatus) : Type 0 where
  pub lag_zero : lag status ≡ 0
  pub online : status.offline ≡ false
  pub healthy : is_healthy status ≡ ltb 0 status.remote_total

status-IsUpToDate :
    (env : Env) (state : SdkSyncState) (c : Counts)
    → c.missing ≡ 0
    → c.different ≡ 0
    → IsUpToDate (status_of env state false c)
unfolding status_of lag is_healthy
status-IsUpToDate env state c m d = record {
  lag_zero = rw (m, d) refl;
  online = refl;
  healthy = rw (m, d) refl;
}

-- A health check reads the saved state.
get_sync_status_saved :
    (env : Env) (w : World) (state remote : SdkSyncState)
    → w.state_file ≡ StateFile.saved state
    → fetch_remote_state env ≡ ok remote
    → get_sync_status env w ≡ (
      ok (status_of env state false (count_loop env state (values remote.sdks) zero_counts)),
      record w { state_file = StateFile.saved state; local_state = some state },
    )
unfolding get_sync_status compare_states read_local_state
get_sync_status_saved env w state remote on_disk fetched =
    let read : read_local_state w
        ≡ (ok state, record w { state_file = StateFile.saved state; local_state = some state }) =
      ap (λ f. read_local_state (record w { state_file = f })) on_disk in
    >>=_ok read_local_state _ w read ∙ rw fetched refl

-- A health check after a sync, whatever the revision.
pub status_ok :
    (env : Env) (w w₀ : World) (local remote : SdkSyncState)
    → Reliable env
    → read_local_state w ≡ (ok local, w₀)
    → fetch_remote_state env ≡ ok remote
    → IsKeyed local.sdks
    → Distinct local.sdks remote.sdks
    → (w' : World) × (w'' : World) × (status : SyncStatus) × ((sync env w ≡ (ok tt, w'))
        × ((get_sync_status env w' ≡ (ok status, w''))
            × (IsUpToDate status
                × (HasRoom local remote → revision_or_zero local < status.revision))))
unfolding status_of
status_ok env w w₀ local remote reliable read fetched keyed distinct =
    let (w', e, (done, newer)) =
      sync_ok env w w₀ local remote reliable read fetched keyed distinct in
    let rk = fetch_remote_state-IsKeyed env remote fetched in
    let c = count_loop env done.state (values remote.sdks) zero_counts in
    let (m, d) =
      count_loop-Settled env done.state (values remote.sdks) zero_counts
        (settled env local remote done.state rk done.entries) in
    (
      w',
      record w' { state_file = StateFile.saved done.state; local_state = some done.state },
      status_of env done.state false c,
      (
        e,
        (
          get_sync_status_saved env w' done.state remote done.on_disk fetched,
          (status-IsUpToDate env done.state c m d, newer),
        ),
      ),
    )

-- After a sync that meets the conditions of `sync-IsSynced`, a health check that gets the same
-- list from S3 finds a lag of 0 and a newer revision. It is healthy if and only if it counts an
-- SDK in the bucket. The conditions are those on the outside and on the old state, and that the old
-- revision plus the number of SDKs in the bucket plus one is below 2^64, where the revision wraps.
pub get_sync_status-sync :
    (env : Env) (w w₀ : World) (local remote : SdkSyncState)
    → Reliable env
    → read_local_state w ≡ (ok local, w₀)
    → fetch_remote_state env ≡ ok remote
    → IsKeyed local.sdks
    → Distinct local.sdks remote.sdks
    → HasRoom local remote
    → (w' : World) × (w'' : World) × (status : SyncStatus) × ((sync env w ≡ (ok tt, w'))
        × ((get_sync_status env w' ≡ (ok status, w''))
            × (IsUpToDate status × (revision_or_zero local < status.revision))))
get_sync_status-sync env w w₀ local remote reliable read fetched keyed distinct small =
    let (w', w'', status, (e, (checked, (up, newer)))) =
      status_ok env w w₀ local remote reliable read fetched keyed distinct in
    (w', w'', status, (e, (checked, (up, newer small))))
