-- ===== src/Api/Threads.antt =====
-- src/api/server.rs: the server as a whole: what `ApiServer::run` does in order, and the two threads
-- that it spawns beside the threads that answer requests. A step is one whole call, or what the
-- main thread does up to its next spawn: what the threads do within the calls of each other, where
-- the program holds its locks for single accesses only, is not modelled. Time is the order of steps.
use symbolserver.Prelude.{Bool, true, false, Option, none, [], ◌≡◌, if◌then◌else◌}
use symbolserver.Errors.{Result, ok, err, panic, undefined, ErrorKind}
use symbolserver.Bytes.{Bytes}
use symbolserver.Config.{
  Config, Outside, get_server_sync_interval, get_server_healthcheck_interval, get_aws_bucket_url,
}
use symbolserver.Utils.Systemd.{Vars}
use symbolserver.Memdb.Stash.State.{World, Env, M, ◌>>=◌, pure, lift}
use symbolserver.Memdb.Stash.Sync.{sync}
use symbolserver.Memdb.Stash.Queries.{sdk_count}
use symbolserver.Api.Types.{Library}
use symbolserver.Api.Handlers.{Request, Parsed}
use symbolserver.Api.Health.{ServerContext, check_health}
use symbolserver.Api.Server.{handle}
use symbolserver.Api.Binding.{BindOptions, bind_target}

-- How far `run` has come: `spawned` behind `spawn_sync_thread`, `ready` when only the listener is
-- missing, `listening` while requests are answered. A failure ends the process.
pub data Phase : Type 0 where
  starting spawned ready listening stopped : Phase

pub record Server : Type 0 where
  pub phase : Phase
  pub ctx : ServerContext
  pub world : World

-- `ApiServer::new`; the locks of a new stash hold nothing.
unfoldable pub new_server : Bool → World → Server
new_server enable_sync disk = record {
  phase = starting;
  ctx = record { enable_sync = enable_sync; cached_memdb_status = none };
  world = record disk { local_state = none; memdbs = [] };
}

-- `run_isolated`: an error is logged, a panic is caught, and the thread goes on.
unfoldable pub run_isolated : {S : Type 0} → Result (Unit {0}) × S → S
run_isolated (rv, s) = s

-- What the main thread goes on with behind a `?`.
unfoldable pub phase_after : {A : Type 0} → Result A → Phase → Phase
phase_after (ok a) next = next
phase_after (err e) next = stopped
phase_after panic next = stopped
phase_after undefined next = stopped

module _ {Region Level Duration StdDuration : Type 0} (out : Outside Region Level Duration)
    (to_std : Duration → Result StdDuration) (config : Config) where
  -- `spawn_sync_thread`, up to the spawn.
  unfoldable pub spawn_sync_thread : M StdDuration
  spawn_sync_thread = do
    interval ← lift (get_server_sync_interval out config)
    std_interval ← lift (to_std interval)
    _ ← lift (get_aws_bucket_url out config)
    _ ← sdk_count
    pure std_interval

  -- `spawn_healthcheck_thread`, up to the spawn: the first check is made right away.
  unfoldable pub spawn_healthcheck_thread :
      Env → ServerContext → World → Result StdDuration × (ServerContext × World)
  spawn_healthcheck_thread env ctx w =
      let interval : Result StdDuration =
        symbolserver.Errors.◌>>=◌ (get_server_healthcheck_interval out config) to_std in
      let (checked, s) = check_health env ctx w in
      elim interval [
        | ok std_interval ↦ (symbolserver.Errors.◌>>=◌ checked (λ u. ok std_interval), s)
        | err e ↦ (err e, (ctx, w))
        | panic ↦ (panic, (ctx, w))
        | undefined ↦ (undefined, (ctx, w))
      ]

  -- The next thing that the main thread does, up to the loop of the listener.
  unfoldable pub main_turn : BindOptions → Vars → Env → Server → Server
  main_turn opts vars env s = elim s.phase [
    | starting ↦
        let (r, w) = spawn_sync_thread s.world in
        if s.ctx.enable_sync
        then record s { phase = phase_after r spawned; world = w }
        else record s { phase = ready }
    | spawned ↦
        let (r, (ctx, w)) = spawn_healthcheck_thread env s.ctx s.world in
        record { phase = phase_after r ready; ctx = ctx; world = w }
    | ready ↦ record s { phase = phase_after (bind_target out config opts vars).0 listening }
    | listening ↦ s
    | stopped ↦ s
  ]

-- A turn of the loop of the sync thread.
unfoldable pub sync_turn : Env → Server → Server
sync_turn env s = record s { world = run_isolated (sync env s.world) }

-- A turn of the loop of the health check thread.
unfoldable pub health_turn : Env → Server → Server
health_turn env s =
    let (ctx, w) = run_isolated (check_health env s.ctx s.world) in
    record s { ctx = ctx; world = w }

-- A request that one of the listener threads answers.
unfoldable pub request_turn :
    Library → (Bytes → Parsed) → Request → Option ErrorKind → Server → Server
request_turn lib from_slice req send_error s = record s {
  world = (handle lib from_slice s.ctx req send_error s.world).1;
}

-- Whether the two background threads run.
unfoldable pub syncs : Server → Bool
syncs s = elim s.phase [
  | starting ↦ false
  | spawned ↦ s.ctx.enable_sync
  | ready ↦ s.ctx.enable_sync
  | listening ↦ s.ctx.enable_sync
  | stopped ↦ false
]

unfoldable pub checks : Server → Bool
checks s = elim s.phase [
  | starting ↦ false
  | spawned ↦ false
  | ready ↦ s.ctx.enable_sync
  | listening ↦ s.ctx.enable_sync
  | stopped ↦ false
]

module _ {Region Level Duration StdDuration : Type 0} (out : Outside Region Level Duration)
    (to_std : Duration → Result StdDuration) (config : Config) (opts : BindOptions) where
  -- The steps of the server; each finds an outside of its own. A step is one whole call: what
  -- threads do within each other's calls is not among the steps.
  pub data Step (s : Server) : Server → Type 0 where
    main_step : (vars : Vars) (env : Env) → Step s (main_turn out to_std config opts vars env s)
    sync_step : syncs s ≡ true → (env : Env) → Step s (sync_turn env s)
    health_step : checks s ≡ true → (env : Env) → Step s (health_turn env s)
    request_step :
        s.phase ≡ listening
        → (lib : Library) (from_slice : Bytes → Parsed) (req : Request)
          (send_error : Option ErrorKind)
        → Step s (request_turn lib from_slice req send_error s)

  pub data Reach (s : Server) : Server → Type 0 where
    start : Reach s s
    later : {t u : Server} → Reach s t → Step t u → Reach s u
