-- ===== src/Api/Checked.antt =====
-- src/api/server.rs: the health that the server reports after a sync and a health check.
use symbolserver.Prelude.{◌≡◌, ap, true, false, some}
use symbolserver.Errors.{ok}
use symbolserver.Memdb.Stash.State.{SdkSyncState, World, Env}
use symbolserver.Memdb.Stash.Sync.{read_local_state, fetch_remote_state, sync}
use symbolserver.Memdb.Stash.Keyed.{IsKeyed}
use symbolserver.Memdb.Stash.SyncLoop.{Reliable}
use symbolserver.Memdb.Stash.SyncLaws.{Distinct}
use symbolserver.Memdb.Stash.Queries.{SyncStatus, get_sync_status}
use symbolserver.Memdb.Stash.StatusLaws.{IsUpToDate, status_ok}
use symbolserver.Api.Health.{ServerContext, check_health, get_healthcheck_result}

check_health_ok :
    (env : Env) (ctx : ServerContext) (w w' : World) (status : SyncStatus)
    → get_sync_status env w ≡ (ok status, w')
    → check_health env ctx w ≡ (ok tt, (record ctx { cached_memdb_status = some status }, w'))
unfolding check_health
check_health_ok env ctx w w' status e =
    rw (e, check_health)
      (ap (λ p. (ok tt, (record ctx { cached_memdb_status = some status }, p.1))) e)

reported :
    (ctx : ServerContext) (status : SyncStatus)
    → ctx.enable_sync ≡ true
    → IsUpToDate status
    → ((get_healthcheck_result (record ctx { cached_memdb_status = some status })).sync_lag ≡ 0)
      × ((get_healthcheck_result (record ctx { cached_memdb_status = some status })).is_offline
          ≡ false)
unfolding get_healthcheck_result
reported ctx status enabled up = (rw enabled up.lag_zero, rw enabled up.online)

-- With syncing enabled, after a sync and a health check that gets the same list from S3, the
-- server reports to be online with a lag of 0. The conditions: the state file can be read, S3 lists
-- its SDKs, downloads and writes succeed, the old state has each SDK once and under its own file
-- name, and a local and a remote SDK of one file name are the same.
pub check_health-sync :
    (env : Env) (ctx : ServerContext) (w w₀ : World) (local remote : SdkSyncState)
    → ctx.enable_sync ≡ true
    → Reliable env
    → read_local_state w ≡ (ok local, w₀)
    → fetch_remote_state env ≡ ok remote
    → IsKeyed local.sdks
    → Distinct local.sdks remote.sdks
    → (w' : World) × (w'' : World) × (ctx' : ServerContext) × ((sync env w ≡ (ok tt, w'))
        × ((check_health env ctx w' ≡ (ok tt, (ctx', w'')))
            × (((get_healthcheck_result ctx').sync_lag ≡ 0)
                × ((get_healthcheck_result ctx').is_offline ≡ false))))
check_health-sync env ctx w w₀ local remote enabled reliable read fetched keyed distinct =
    let (w', w'', status, (e, (checked, (up, _)))) =
      status_ok env w w₀ local remote reliable read fetched keyed distinct in
    (
      w',
      w'',
      record ctx { cached_memdb_status = some status },
      (e, (check_health_ok env ctx w' w'' status checked, reported ctx status enabled up)),
    )
