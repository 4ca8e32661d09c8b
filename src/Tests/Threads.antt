-- ===== src/Tests/Threads.antt =====
-- A server that starts, answers a request, and then catches up.
use symbolserver.Prelude.{◌≡◌, refl, true, false, some, []}
use mathlib.Core.Option.{some-injective}
use symbolserver.Prelude.Order.{nat_ord, list_ord}
use symbolserver.Errors.{ok}
use symbolserver.Text.{codes}
use symbolserver.Config.{
  Config, default_config, option_result, set_aws_bucket_url, bucket_url, get_aws_bucket_url,
  get_server_sync_interval, get_server_healthcheck_interval, interval_of,
}
use symbolserver.Memdb.Stash.State.{SdkSyncState}
use symbolserver.Memdb.Stash.Sync.{get_local_state}
use symbolserver.Memdb.Stash.Sound.{stored}
use symbolserver.Memdb.Stash.Keyed.{IsKeyed}
use symbolserver.Memdb.Stash.Queries.{sdk_count, get_sync_status, compare_states, status_of}
use symbolserver.Api.Health.{get_healthcheck_result, check_health}
use symbolserver.Api.Binding.{BindOptions, bind_to_addr, bind_target}
use symbolserver.Api.Threads.{
  Server, new_server, listening, main_turn, sync_turn, health_turn, spawn_sync_thread,
  spawn_healthcheck_thread, phase_after, main_step, Reach, start, later,
}
use symbolserver.Api.Recovery.{health_turn-sync_turn}
use symbolserver.Tests.Config.{out}
use symbolserver.Tests.Stash.{
  env, world, local, remote, reliable, fetched, distinct, local-IsKeyed, run,
}

abbrev config : Config
config = set_aws_bucket_url out (codes "bucket") default_config

abbrev opts : BindOptions
opts = bind_to_addr (codes "127.0.0.1:3000")

abbrev turn : Server → Server
turn s = main_turn out (λ d. ok d) config opts [] env s

abbrev server : Server
server = turn (turn (turn (new_server true world)))

reached : Reach out (λ d. ok d) config opts (new_server true world) server
reached = later (later (later start (main_step [] env)) (main_step [] env)) (main_step [] env)

server_up : server.phase ≡ listening
unfolding main_turn new_server run spawn_sync_thread spawn_healthcheck_thread phase_after
    bind_target get_server_sync_interval get_server_healthcheck_interval get_aws_bucket_url
    bucket_url sdk_count get_local_state check_health get_sync_status compare_states status_of
    interval_of set_aws_bucket_url option_result
server_up = refl

stored-IsKeyed : (s : SdkSyncState) → stored world.state_file ≡ some s → IsKeyed s.sdks
stored-IsKeyed s e = let same : local ≡ s = some-injective local s e in rw (← same) local-IsKeyed

stored-local : stored server.world.state_file ≡ some local
unfolding server_up
stored-local = refl

health_turn-sync_turn_example :
    Reach out
      (λ d. ok d)
      config
      opts
      (new_server true world)
      (health_turn env (sync_turn env server))
    × ((get_healthcheck_result (health_turn env (sync_turn env server)).ctx).sync_lag ≡ 0)
    × ((get_healthcheck_result (health_turn env (sync_turn env server)).ctx).is_offline ≡ false)
health_turn-sync_turn_example =
    health_turn-sync_turn out (λ d. ok d) config opts world server env local remote stored-IsKeyed
      reached server_up stored-local reliable fetched distinct
