-- ===== src/Api/Recovery.antt =====
-- src/api/server.rs: what every reachable state of the server keeps, and that it can always catch
-- up with S3.
use symbolserver.Prelude.{◌≡◌, refl, ap, ◌∙◌, true, false}
use symbolserver.Prelude.{some, Bool-cases, inl, inr}
use symbolserver.Prelude.Order.{nat_ord, list_ord}
use symbolserver.Errors.{
  Str, Result, ok, err, panic, undefined, ErrorKind, ApiError, unknown_sdk, IoKind, io, web,
}
use symbolserver.Errors.Laws.{Result-cases}
use symbolserver.Sdk.{sdk_ord}
use symbolserver.Config.{
  Config, Outside, get_server_sync_interval, get_server_healthcheck_interval, get_aws_bucket_url,
}
use symbolserver.Utils.Systemd.{Vars}
use symbolserver.Memdb.Stash.State.{SdkSyncState, default_state, StateFile, World, Env, pure, lift}
use symbolserver.Memdb.Stash.Sync.{read_local_state, fetch_remote_state, sync}
use symbolserver.Memdb.Stash.Queries.{get_sync_status, sdk_count}
use mathlib.Core.Option.{some-injective}
use symbolserver.Memdb.Stash.Keyed.{IsKeyed}
use symbolserver.Memdb.Stash.SyncLoop.{Reliable}
use symbolserver.Memdb.Stash.SyncLaws.{Distinct}
use symbolserver.Api.Checked.{check_health-sync}
use symbolserver.Memdb.Stash.Sound.{stored, IsSound}
use symbolserver.Memdb.Stash.Syncing.{sync-Safe}
use symbolserver.Api.Health.{ServerContext, check_health, get_healthcheck_result}
use symbolserver.Api.Server.{handle}
use symbolserver.Api.Binding.{BindOptions}
use symbolserver.Api.Threads.{
  Phase, starting, spawned, ready, listening, stopped, Server, new_server, run_isolated,
  spawn_sync_thread, spawn_healthcheck_thread, main_turn, sync_turn, health_turn, request_turn,
  syncs, checks, Step, main_step, sync_step, health_step, request_step, Reach, start, later,
}
use symbolserver.Api.Calls.{
  result-Safe, then-Safe, value-Safe, get_sync_status-Safe, sdk_count-Safe, route-Safe,
}

-- A check changes the stash as finding the status does, and of the context only the status.
check_health-world :
    (env : Env) (ctx : ServerContext) (w : World)
    → ((check_health env ctx w).1.1 ≡ (get_sync_status env w).1)
      × ((check_health env ctx w).1.0.enable_sync ≡ ctx.enable_sync)
unfolding check_health
check_health-world env ctx w = elim (Result-cases (get_sync_status env w).0) [
  | inl (status, e) ↦ rw (check_health, e) (refl, refl)
  | inr (inl (x, e)) ↦ rw (check_health, e) (refl, refl)
  | inr (inr (inl e)) ↦ rw (check_health, e) (refl, refl)
  | inr (inr (inr e)) ↦ rw (check_health, e) (refl, refl)
]

-- What a step keeps.
record Kept (s t : Server) : Type 0 where
  sound : IsSound t.world
  same_sync : t.ctx.enable_sync ≡ s.ctx.enable_sync

check_health-IsSound :
    (env : Env) (ctx : ServerContext) (w : World) → IsSound w → IsSound (check_health env ctx w).1.1
check_health-IsSound env ctx w h =
    rw ((check_health-world env ctx w).0) (get_sync_status-Safe env w h).sound

module _ {Region Level Duration StdDuration : Type 0} (out : Outside Region Level Duration)
    (to_std : Duration → Result StdDuration) (config : Config) (opts : BindOptions) where
  spawn_sync_thread-IsSound :
      (w : World) → IsSound w → IsSound (spawn_sync_thread out to_std config w).1
  unfolding spawn_sync_thread
  spawn_sync_thread-IsSound w h =
      (then-Safe _ (lift (get_server_sync_interval out config) w)
        (result-Safe (get_server_sync_interval out config) w h)
        (λ interval w₁ h₁.
          then-Safe _ (lift (to_std interval) w₁) (result-Safe (to_std interval) w₁ h₁)
            (λ std_interval w₂ h₂.
              then-Safe _ (lift (get_aws_bucket_url out config) w₂)
                (result-Safe (get_aws_bucket_url out config) w₂ h₂)
                (λ url w₃ h₃.
                  then-Safe (λ n. pure std_interval) (sdk_count w₃) (sdk_count-Safe w₃ h₃)
                    (λ n w₄ h₄. value-Safe std_interval w₄ h₄))))).sound

  spawn_healthcheck_thread-Kept :
      (env : Env) (ctx : ServerContext) (w : World)
      → IsSound w
      → IsSound (spawn_healthcheck_thread out to_std config env ctx w).1.1
        × ((spawn_healthcheck_thread out to_std config env ctx w).1.0.enable_sync ≡ ctx.enable_sync)
  unfolding spawn_healthcheck_thread
  spawn_healthcheck_thread-Kept env ctx w h =
      elim (Result-cases
        (symbolserver.Errors.◌>>=◌ (get_server_healthcheck_interval out config) to_std)) [
          | inl (d, e) ↦
              rw (spawn_healthcheck_thread, e)
                (check_health-IsSound env ctx w h, (check_health-world env ctx w).1)
          | inr (inl (x, e)) ↦ rw (spawn_healthcheck_thread, e) (h, refl)
          | inr (inr (inl e)) ↦ rw (spawn_healthcheck_thread, e) (h, refl)
          | inr (inr (inr e)) ↦ rw (spawn_healthcheck_thread, e) (h, refl)
        ]

  main_turn-Kept :
      (vars : Vars) (env : Env) (p : Phase) (s : Server)
      → s.phase ≡ p
      → IsSound s.world
      → Kept s (main_turn out to_std config opts vars env s)
  unfolding main_turn
  main_turn-Kept vars env starting s e h = elim (Bool-cases s.ctx.enable_sync) [
    | inl on ↦
        rw (main_turn, e, on)
          (record { sound = spawn_sync_thread-IsSound s.world h; same_sync = refl })
    | inr off ↦ rw (main_turn, e, off) (record { sound = h; same_sync = refl })
  ]
  main_turn-Kept vars env spawned s e h =
      rw (main_turn, e)
        (let (sound, same) = spawn_healthcheck_thread-Kept env s.ctx s.world h in
          record { sound = sound; same_sync = same })
  main_turn-Kept vars env ready s e h = rw (main_turn, e) (record { sound = h; same_sync = refl })
  main_turn-Kept vars env listening s e h =
      rw (main_turn, e) (record { sound = h; same_sync = refl })
  main_turn-Kept vars env stopped s e h = rw (main_turn, e) (record { sound = h; same_sync = refl })

  Step-Kept : (s t : Server) → Step out to_std config opts s t → IsSound s.world → Kept s t
  unfolding sync_turn health_turn request_turn run_isolated handle
  Step-Kept s _ (main_step vars env) h = main_turn-Kept vars env s.phase s refl h
  Step-Kept s _ (sync_step on env) h = record {
    sound = (sync-Safe env s.world h).sound;
    same_sync = refl;
  }
  Step-Kept s _ (health_step on env) h = record {
    sound = check_health-IsSound env s.ctx s.world h;
    same_sync = (check_health-world env s.ctx s.world).1;
  }
  Step-Kept s _ (request_step on lib from_slice req send_error) h = record {
    sound = (route-Safe lib from_slice s.ctx req s.world h).sound;
    same_sync = refl;
  }

  Reach-Kept : (s t : Server) → Reach out to_std config opts s t → IsSound s.world → Kept s t
  Reach-Kept s _ start h = record { sound = h; same_sync = refl }
  Reach-Kept s u (later {t} r step) h =
      let k = Reach-Kept s t r h in
      let k' = Step-Kept t u step k.sound in
      record { sound = k'.sound; same_sync = k'.same_sync ∙ k.same_sync }

read-stored :
    (w : World) (f : StateFile) (s : SdkSyncState)
    → w.state_file ≡ f
    → stored f ≡ some s
    → (read_local_state w).0 ≡ ok s
unfolding read_local_state
read-stored w StateFile.missing s e h =
    rw (read_local_state, e) (ap ok (some-injective default_state s h))
read-stored w StateFile.unreadable s e h = absurd (cc h)
read-stored w StateFile.malformed s e h = absurd (cc h)
read-stored w (StateFile.saved t) s e h = rw (read_local_state, e) (ap ok (some-injective t s h))

module _ {Region Level Duration StdDuration : Type 0} (out : Outside Region Level Duration)
    (to_std : Duration → Result StdDuration) (config : Config) (opts : BindOptions) where
  -- A server with syncing enabled that answers requests, in whatever state it got into, is healed
  -- by one turn of the sync thread and one of the health check thread in which S3 lists its SDKs
  -- and downloads and writes work: they lead to a reachable state that reports to be online with a
  -- lag of 0. The stored state has to be readable then, no SDK of it may share its file name with
  -- another one of S3, and the stored state at the start has every SDK under its file name.
  pub health_turn-sync_turn :
      (disk : World) (t : Server) (env : Env) (local remote : SdkSyncState)
      → ((s : SdkSyncState) → stored disk.state_file ≡ some s → IsKeyed s.sdks)
      → Reach out to_std config opts (new_server true disk) t
      → t.phase ≡ listening
      → stored t.world.state_file ≡ some local
      → Reliable env
      → fetch_remote_state env ≡ ok remote
      → Distinct local.sdks remote.sdks
      → Reach out to_std config opts (new_server true disk) (health_turn env (sync_turn env t))
        × ((get_healthcheck_result (health_turn env (sync_turn env t)).ctx).sync_lag ≡ 0)
        × ((get_healthcheck_result (health_turn env (sync_turn env t)).ctx).is_offline ≡ false)
  unfolding new_server sync_turn health_turn run_isolated syncs checks
  health_turn-sync_turn disk t env local remote keyed r up readable reliable fetched distinct =
      let k : Kept (new_server true disk) t =
        Reach-Kept out to_std config opts (new_server true disk) t r
          (record { keyed = keyed; coherent = λ s e. absurd (cc e) }) in
      let w₀ : World = (read_local_state t.world).1 in
      let read : (read_local_state t.world).0 ≡ ok local =
        read-stored t.world t.world.state_file local refl readable in
      let (w', w'', ctx', (synced, (checked, (lag, online)))) =
        check_health-sync env t.ctx t.world w₀ local remote k.same_sync reliable (λ i. (read i, w₀))
          fetched (k.sound.keyed local readable) distinct in
      let world_after : (sync env t.world).1 ≡ w' = ap (λ o. o.1) synced in
      let ctx_after : (check_health env t.ctx w').1.0 ≡ ctx' = ap (λ o. o.1.0) checked in
      (
        later (later r (sync_step (rw (up, syncs) k.same_sync) env))
            (health_step (rw (up, checks) k.same_sync) env),
        rw (world_after, ctx_after) lag,
        rw (world_after, ctx_after) online,
      )
