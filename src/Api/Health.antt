-- ===== src/Api/Health.antt =====
-- src/api/server.rs: the context of the server, and its health checks.
use symbolserver.Prelude.{Bool, true, false, Option, none, some}
use symbolserver.Errors.{Result, ok, err, panic, undefined}
use symbolserver.Memdb.Stash.State.{World, Env}
use symbolserver.Memdb.Stash.Queries.{SyncStatus, lag, is_healthy, get_sync_status}
use symbolserver.Api.Types.{HealthCheckResponse}

-- The part of `ServerContext` that is not the stash.
pub record ServerContext : Type 0 where
  pub enable_sync : Bool
  pub cached_memdb_status : Option SyncStatus

-- `check_health`, the status that is kept only when it could be found.
unfoldable pub check_health :
    Env → ServerContext → World → Result (Unit {0}) × (ServerContext × World)
check_health env ctx w =
    let (r, w') = get_sync_status env w in
    elim r [
      | ok status ↦ (ok tt, (record ctx { cached_memdb_status = some status }, w'))
      | err e ↦ (err e, (ctx, w'))
      | panic ↦ (panic, (ctx, w'))
      | undefined ↦ (undefined, (ctx, w'))
    ]

-- `get_healthcheck_result`, which never fails.
unfoldable pub get_healthcheck_result : ServerContext → HealthCheckResponse
get_healthcheck_result ctx = elim ctx.enable_sync [
  | true ↦ elim ctx.cached_memdb_status [
    | some state ↦ record {
      is_offline = state.offline;
      is_healthy = is_healthy state;
      sync_lag = lag state;
    }
    | none ↦ record { is_offline = true; is_healthy = false; sync_lag = 0 }
  ]
  | false ↦ record { is_offline = true; is_healthy = true; sync_lag = 0 }
]
