-- ===== src/Memdb/Stash/Queries.antt =====
-- src/memdb/stash.rs: the health of the sync, and the SDKs and databases that the stash serves.
use symbolserver.Prelude.{ℕ, ◌+◌, ◌*◌, Bool, true, false, not, ltb, if◌then◌else◌, length}
use symbolserver.Prelude.{none, some, List, [], ◌∷◌}
use symbolserver.Prelude.Order.{nat_ord, list_ord}
use symbolserver.Prelude.Map
use symbolserver.Prelude.Map.{Map, values}
use symbolserver.Prelude.Sort.{sort_by}
use symbolserver.Errors.{Result, ok, err, panic, undefined, s3_unavailable, unknown_sdk, io, IoKind}
use symbolserver.Sdk.{SdkInfo, sdk_ord, sdk_cmp, memdb_filename}
use symbolserver.Memdb.Types.{as_u32}
use symbolserver.Memdb.Read.{MemDb, load_memdb}
use symbolserver.Memdb.Stash.State.{
  RemoteSdk, same_sdk, SdkSyncState, get_sdk, revision_or_zero, Env, M, ◌>>=◌, pure, lift,
}
use symbolserver.Memdb.Stash.Sync.{
  read_local_state, get_local_state, fetch_remote_state, sdk_is_ignored, infos,
}

pub record SyncStatus : Type 0 where
  pub remote_total : ℕ
  pub missing : ℕ
  pub different : ℕ
  pub revision : ℕ
  pub offline : Bool

unfoldable pub lag : SyncStatus → ℕ
lag self = self.missing + self.different

-- `lag / total < 0.10` in `f32`: for totals up to 2^24 this is the test on whole numbers. A total
-- of 0 gives 0/0, a NaN, and the comparison fails.
unfoldable pub is_healthy : SyncStatus → Bool
unfolding lag
is_healthy self = if self.offline then true else ltb (10 * lag self) self.remote_total

pub record Counts : Type 0 where
  pub remote_total : ℕ
  pub missing : ℕ
  pub different : ℕ

abbrev pub zero_counts : Counts
zero_counts = record { remote_total = 0; missing = 0; different = 0 }

module _ (env : Env) where
  -- The loop of `get_sync_status` over the remote SDKs.
  unfoldable pub count_loop : SdkSyncState → List RemoteSdk → Counts → Counts
  count_loop local [] c = c
  count_loop local (sdk ∷ rest) c = count_loop local rest (
      if sdk_is_ignored env sdk.info then c else (elim (get_sdk local sdk.info) [
        | some local_sdk ↦
            if not (same_sdk local_sdk sdk)
            then record c { remote_total = c.remote_total + 1; different = c.different + 1 }
            else record c { remote_total = c.remote_total + 1 }
        | none ↦ record c { remote_total = c.remote_total + 1; missing = c.missing + 1 }
      ]))

  unfoldable pub status_of : SdkSyncState → Bool → Counts → SyncStatus
  status_of local offline c = record {
    remote_total = as_u32 c.remote_total;
    missing = as_u32 c.missing;
    different = as_u32 c.different;
    revision = revision_or_zero local;
    offline = offline;
  }

  -- Only `S3Unavailable` counts as being offline.
  unfoldable pub compare_states : SdkSyncState → Result SdkSyncState → Result SyncStatus
  compare_states local (ok remote) =
      ok (status_of local false (count_loop local (values remote.sdks) zero_counts))
  compare_states local (err (s3_unavailable m)) = ok (status_of local true zero_counts)
  compare_states local (err e) = err e
  compare_states local panic = panic
  compare_states local undefined = undefined

  unfoldable pub get_sync_status : M SyncStatus
  get_sync_status = do
    local ← read_local_state
    lift (compare_states local (fetch_remote_state env))

unfoldable pub get_revision : M ℕ
get_revision = do local ← read_local_state; pure (revision_or_zero local)

unfoldable pub sdk_count : M ℕ
sdk_count = do local ← get_local_state; pure (length local.sdks)

unfoldable pub list_sdks : M (List SdkInfo)
list_sdks = do local ← get_local_state; pure (sort_by sdk_cmp (infos local.sdks))

-- `MemDb::from_path` on a file of the stash's directory.
unfoldable pub open_memdb : SdkInfo → M MemDb
open_memdb info w = elim (Map.get (memdb_filename info) w.files) [
  | none ↦ (err (io IoKind.not_found), w)
  | some bytes ↦ (load_memdb bytes, w)
]

abbrev pub cache_memdb : SdkInfo → MemDb → M MemDb
cache_memdb info memdb w = (ok memdb, record w { memdbs = Map.insert info memdb w.memdbs })

unfoldable pub get_memdb_uncached : SdkInfo → M MemDb
get_memdb_uncached info = do
  local ← get_local_state
  elim (get_sdk local info) [
    | none ↦ lift (err unknown_sdk)
    | some _ ↦ do memdb ← open_memdb info; cache_memdb info memdb
  ]

unfoldable pub get_memdb : SdkInfo → M MemDb
get_memdb info w =
    let load = get_memdb_uncached info w in
    elim (Map.get info w.memdbs) [ some memdb ↦ (ok memdb, w) | none ↦ load ]
