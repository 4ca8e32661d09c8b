-- ===== src/Memdb/Stash/Syncing.antt =====
-- src/memdb/stash.rs: a sync keeps what holds of the stash, wherever it stops.
use symbolserver.Prelude.{◌≡◌, refl, ◌∙◌, Bool, true, false}
use symbolserver.Prelude.{Option, none, some, List, [], ◌∷◌, Bool-cases, Option-cases, inl, inr}
use symbolserver.Prelude.Sort.{sort_by}
use mathlib.Core.Option.{some-injective}
use symbolserver.Errors.Laws.{Result-cases}
use symbolserver.Errors.{IoKind, io, Result, ok, err, panic, undefined}
use symbolserver.Sdk.{SdkInfo, sdk_ord, memdb_filename}
use symbolserver.Memdb.Stash.State.{
  RemoteSdk, same_sdk, SdkSyncState, get_sdk, state_update_sdk, state_remove_sdk, bump, World, Env,
  ◌>>=◌, ◌>>◌, pure, lift,
}
use symbolserver.Memdb.Stash.Sync.{
  read_local_state, save_local_state, fetch_remote_state, sdk_is_ignored, update_sdk, remove_sdk,
  evict, refresh, record_change, sync_found, sync_one, sync_loop, delete_found, delete_loop,
  sync_with, sync, discard, infos, descending,
}
use symbolserver.Memdb.Stash.Keyed.{insert-IsKeyed, remove-IsKeyed}
use symbolserver.Memdb.Stash.Sound.{
  IsSound, Safe, Any, Held, Same, pure-Safe, lift-Safe, after-Safe, weaken-Safe,
  read_local_state-Safe, Same-IsSound,
}

module _ (env : Env) where
  -- The stored state changes here alone.
  save_local_state-Safe :
      (s : SdkSyncState) (w : World)
      → IsSound w
      → Held s w
      → Safe (λ u w'. Held s w') (save_local_state env s w)
  unfolding save_local_state
  save_local_state-Safe s w h keyed = elim (Option-cases (env.save s)) [
    | inr (e, failed) ↦ rw (save_local_state, failed) (record { sound = h; returns = tt })
    | inl saved ↦
        rw (save_local_state, saved)
          (record {
            sound = record {
              keyed = λ t e. let same : s ≡ t = some-injective s t e in rw (← same) keyed;
              coherent = λ t e. e;
            };
            returns = keyed;
          })
  ]

  -- Any change of the files alone.
  Same-Safe :
      {A : Type 0} (r : Result A) (w w' : World)
      → w'.state_file ≡ w.state_file
      → w'.local_state ≡ w.local_state
      → IsSound w
      → Safe (Same w) (r, w')
  Same-Safe r w w' e k h = lift-Safe (Same w) r w' (Same-IsSound w w' e k h) (λ a _. e)

  update_sdk-Safe : (sdk : RemoteSdk) (w : World) → IsSound w → Safe (Same w) (update_sdk env sdk w)
  unfolding update_sdk
  update_sdk-Safe sdk w h = elim (Result-cases (env.download sdk)) [
    | inl ((bytes, none), e) ↦ rw (update_sdk, e) (Same-Safe (ok tt) w _ refl refl h)
    | inl ((bytes, some x), e) ↦ rw (update_sdk, e) (Same-Safe (err x) w _ refl refl h)
    | inr (inl (x, e)) ↦ rw (update_sdk, e) (Same-Safe (err x) w w refl refl h)
    | inr (inr (inl e)) ↦ rw (update_sdk, e) (Same-Safe panic w w refl refl h)
    | inr (inr (inr e)) ↦ rw (update_sdk, e) (Same-Safe undefined w w refl refl h)
  ]

  evict-Safe : (info : SdkInfo) (w : World) → IsSound w → Safe (Same w) (evict env info w)
  unfolding evict
  evict-Safe info w h = Same-Safe (ok tt) w (evict env info w).1 refl refl h

  remove_sdk-Safe : (sdk : RemoteSdk) (w : World) → IsSound w → Safe (Same w) (remove_sdk env sdk w)
  unfolding remove_sdk
  remove_sdk-Safe sdk w h = elim (Option-cases (env.unlink (memdb_filename sdk.info))) [
    | inl e ↦ rw (remove_sdk, e) (Same-Safe (ok tt) w _ refl refl h)
    | inr (IoKind.not_found, e) ↦ rw (remove_sdk, e) (Same-Safe (ok tt) w w refl refl h)
    | inr (IoKind.interrupted, e) ↦
        rw (remove_sdk, e) (Same-Safe (err (io IoKind.interrupted)) w w refl refl h)
    | inr (IoKind.other, e) ↦ rw (remove_sdk, e) (Same-Safe (err (io IoKind.other)) w w refl refl h)
  ]

  refresh-Safe :
      (local : SdkSyncState) (info : SdkInfo) (sdk : RemoteSdk) (w : World)
      → IsSound w
      → Safe (Same w) (refresh env local info sdk w)
  unfolding refresh
  refresh-Safe local info sdk w h = elim (Option-cases (get_sdk local info)) [
    | inl e ↦
        rw (refresh, e)
          (after-Safe (λ u. pure true) (update_sdk env sdk w) (update_sdk-Safe sdk w h)
            (λ u w₁ h₁ same. pure-Safe (Same w) true w₁ h₁ same))
    | inr (old, e) ↦ elim (Bool-cases (same_sdk old sdk)) [
      | inl same ↦ rw (refresh, e, same) (pure-Safe (Same w) false w h refl)
      | inr differ ↦
          rw (refresh, e, differ)
            (after-Safe (λ u. do evict env info; pure true) (update_sdk env sdk w)
              (update_sdk-Safe sdk w h)
              (λ u w₁ h₁ same₁.
                after-Safe (λ u. pure true) (evict env info w₁) (evict-Safe info w₁ h₁)
                  (λ u w₂ h₂ same₂. pure-Safe (Same w) true w₂ h₂ (same₂ ∙ same₁))))
    ]
  ]

  Same-Held :
      (local : SdkSyncState) (w w' : World)
      → w'.state_file ≡ w.state_file
      → Held local w
      → Held local w'
  Same-Held local w w' e keyed = keyed

  record_change-Safe :
      (local : SdkSyncState) (sdk : RemoteSdk) (changed : Bool) (w : World)
      → IsSound w
      → Held local w
      → Safe Held (record_change env local sdk changed w)
  unfolding record_change state_update_sdk bump
  record_change-Safe local sdk false w h held = pure-Safe Held local w h held
  record_change-Safe local sdk true w h keyed =
      after-Safe (λ u. pure (bump (state_update_sdk local sdk)))
        (save_local_state env (bump (state_update_sdk local sdk)) w)
        (save_local_state-Safe (bump (state_update_sdk local sdk)) w h (insert-IsKeyed sdk keyed))
        (λ u w₁ h₁ held. pure-Safe Held (bump (state_update_sdk local sdk)) w₁ h₁ held)

  sync_one-Safe :
      (remote local : SdkSyncState) (info : SdkInfo) (w : World)
      → IsSound w
      → Held local w
      → Safe Held (sync_one env remote local info w)
  unfolding sync_one sync_found
  sync_one-Safe remote local info w h held = elim (Bool-cases (sdk_is_ignored env info)) [
    | inl skipped ↦ rw skipped (pure-Safe Held local w h held)
    | inr wanted ↦ elim (Option-cases (get_sdk remote info)) [
      | inl e ↦ rw (wanted, e) (record { sound = h; returns = tt })
      | inr (sdk, e) ↦
          rw (wanted, e)
            (after-Safe (λ changed. record_change env local sdk changed)
              (refresh env local info sdk w) (refresh-Safe local info sdk w h)
              (λ changed w₁ h₁ same.
                record_change-Safe local sdk changed w₁ h₁ (Same-Held local w w₁ same held)))
    ]
  ]

  abbrev HeldPair : SdkSyncState × List SdkInfo → World → Type 0
  HeldPair p w = Held p.0 w

  sync_loop-Safe :
      (remote local : SdkSyncState) (to_delete is : List SdkInfo) (w : World)
      → IsSound w
      → Held local w
      → Safe HeldPair (sync_loop env remote local to_delete is w)
  unfolding sync_loop
  sync_loop-Safe remote local to_delete [] w h held = pure-Safe HeldPair (local, to_delete) w h held
  sync_loop-Safe remote local to_delete (info ∷ rest) w h held =
      after-Safe (λ local'. sync_loop env remote local' (discard info to_delete) rest)
        (sync_one env remote local info w) (sync_one-Safe remote local info w h held)
        (λ local' w₁ h₁ held₁.
          sync_loop-Safe remote local' (discard info to_delete) rest w₁ h₁ held₁)

  delete_found-Safe :
      (found : Option RemoteSdk) (w : World) → IsSound w → Safe (Same w) (delete_found env found w)
  unfolding delete_found
  delete_found-Safe none w h = pure-Safe (Same w) tt w h refl
  delete_found-Safe (some sdk) w h =
      after-Safe (λ u. evict env sdk.info) (remove_sdk env sdk w) (remove_sdk-Safe sdk w h)
        (λ u w₁ h₁ same₁.
          weaken-Safe (evict env sdk.info w₁) (evict-Safe sdk.info w₁ h₁)
            (λ u w₂ same₂. same₂ ∙ same₁))

  delete_loop-Safe :
      (local : SdkSyncState) (del : List SdkInfo) (w : World)
      → IsSound w
      → Held local w
      → Safe Held (delete_loop env local del w)
  unfolding delete_loop state_remove_sdk
  delete_loop-Safe local [] w h held = pure-Safe Held local w h held
  delete_loop-Safe local (info ∷ rest) w h keyed =
      let local' : SdkSyncState = state_remove_sdk local info in
      after-Safe (λ u. delete_loop env local' rest) (delete_found env (get_sdk local' info) w)
        (delete_found-Safe (get_sdk local' info) w h)
        (λ u w₁ h₁ same.
          delete_loop-Safe local' rest w₁ h₁
            (Same-Held local' w w₁ same (remove-IsKeyed (memdb_filename info) keyed)))

  sync_with-Safe :
      (local remote : SdkSyncState) (w : World)
      → IsSound w
      → Held local w
      → Safe Any (sync_with env local remote w)
  unfolding sync_with bump
  sync_with-Safe local remote w h held =
      after-Safe (λ p. delete_loop env p.0 p.1 >>= λ local''. save_local_state env (bump local''))
        (sync_loop env remote local (infos local.sdks) (sort_by descending (infos remote.sdks)) w)
        (sync_loop-Safe remote local (infos local.sdks) (sort_by descending (infos remote.sdks)) w h
          held)
        (λ p w₁ h₁ held₁.
          after-Safe (λ local''. save_local_state env (bump local'')) (delete_loop env p.0 p.1 w₁)
            (delete_loop-Safe p.0 p.1 w₁ h₁ held₁)
            (λ local'' w₂ h₂ keyed.
              weaken-Safe (save_local_state env (bump local'') w₂)
                (save_local_state-Safe (bump local'') w₂ h₂ keyed) (λ u w₃ saved. tt)))

  -- A sync, wherever it stops.
  pub sync-Safe : (w : World) → IsSound w → Safe Any (sync env w)
  unfolding sync
  sync-Safe w h =
      after-Safe (λ local. lift (fetch_remote_state env) >>= sync_with env local)
        (read_local_state w) (read_local_state-Safe w h)
        (λ local w₁ h₁ held.
          after-Safe (sync_with env local) (lift (fetch_remote_state env) w₁)
            (lift-Safe (Same w₁) (fetch_remote_state env) w₁ h₁ (λ a _. refl))
            (λ remote w₂ h₂ same.
              sync_with-Safe local remote w₂ h₂ (Same-Held local w₁ w₂ same held)))
