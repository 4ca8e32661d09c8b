-- ===== src/Memdb/Stash/SyncLoop.antt =====
-- The first loop of `sync`, where downloads and writes succeed.
use symbolserver.Prelude.{
  ℕ, suc, ◌+◌, ◌<◌, ◌^◌, length, ◌≤◌, ◌≡◌, refl, ap, ◌∙◌, Bool, true, false, not, ◌&&◌,
}
use symbolserver.Prelude.{none, some, List, [], ◌∷◌, any, All, arith, Bool-cases, inl, inr}
use symbolserver.Prelude.{if◌then◌else◌, Option-cases}
use symbolserver.Prelude.Order.{◌=?◌, =?_refl, eq_of_=?, nat_ord, list_ord}
use symbolserver.Prelude.Map
use symbolserver.Prelude.Map.{Map}
use symbolserver.Errors.{Str, ok}
use symbolserver.Bytes.{Bytes}
use symbolserver.Sdk.{SdkInfo, sdk_ord, memdb_filename}
use symbolserver.Memdb.Stash.State.{
  RemoteSdk, same_sdk, SdkSyncState, get_sdk, state_update_sdk, bump, revision_or_zero, World, Env,
  StateFile, >>=_ok,
}
use symbolserver.Memdb.Stash.Sync.{
  save_local_state, sdk_is_ignored, update_sdk, evict, refresh, record_change, sync_found, sync_one,
  sync_loop, discard,
}
use symbolserver.Memdb.Stash.Keyed.{IsKeyed, insert-IsKeyed, get-Keyed}

-- Every download is complete, and the state file can be written.
pub record Reliable (env : Env) : Type 0 where
  pub downloads : (sdk : RemoteSdk) → (bytes : Bytes) × (env.download sdk ≡ ok (bytes, none))
  pub saves : (s : SdkSyncState) → env.save s ≡ none

and-true : (a b : Bool) → (a && b) ≡ true → (a ≡ true) × (b ≡ true)
and-true a b h = ground arith

pub same_sdk-eq : (a b : RemoteSdk) → same_sdk a b ≡ true → a ≡ b
unfolding same_sdk
same_sdk-eq a b h =
    let (p, rest) = and-true _ _ h in
    let (q, rest') = and-true _ _ rest in
    let (r, s) = and-true _ _ rest' in
    λ i. record {
      filename = eq_of_=? a.filename b.filename p i;
      info = eq_of_=? a.info b.info q i;
      size = eq_of_=? a.size b.size r i;
      etag = eq_of_=? a.etag b.etag s i;
    }

pub same_sdk_refl : (a : RemoteSdk) → same_sdk a a ≡ true
unfolding same_sdk
same_sdk_refl a = rw (=?_refl a.filename, =?_refl a.info, =?_refl a.size, =?_refl a.etag)

abbrev pub discard_all : List SdkInfo → List SdkInfo → List SdkInfo
discard_all [] del = del
discard_all (i ∷ is) del = discard_all is (discard i del)

-- The revision after at most so many changes. It does not fall if there is room for them in a `u64`.
pub record Advanced (changes : ℕ) (local local' : SdkSyncState) : Type 0 where
  pub room : revision_or_zero local' ≤ revision_or_zero local + changes
  pub newer :
      revision_or_zero local + changes < 2 ^ 64 → revision_or_zero local ≤ revision_or_zero local'

same-Advanced : (n : ℕ) (local : SdkSyncState) → Advanced n local local
same-Advanced n local = record { room = omega arith; newer = λ h. omega arith }

bump-Advanced : (local : SdkSyncState) → Advanced 1 local (bump local)
unfolding bump
bump-Advanced local = record { room = omega arith; newer = λ h. omega (arith, h) }

later-Advanced :
    (n : ℕ) (a b c : SdkSyncState) → Advanced 1 a b → Advanced n b c → Advanced (suc n) a c
later-Advanced n a b c h k = record {
  room = omega (arith, h.room, k.room);
  newer = λ small.
      let first = h.newer (omega (arith, small)) in
      let rest = k.newer (omega (arith, small, h.room)) in omega (arith, first, rest);
}

module _ (env : Env) where
  -- What the loop body leaves: a keyed state that differs at the SDK's own key alone.
  record Synced (remote local : SdkSyncState) (info : SdkInfo) (local' : SdkSyncState)
      : Type 0 where
    keyed : IsKeyed local'.sdks
    revision : Advanced 1 local local'
    entries :
        (k : Str)
        → Map.get k local'.sdks ≡ (
            if memdb_filename info =? k && not (sdk_is_ignored env info)
            then Map.get k remote.sdks
            else Map.get k local.sdks)

  abbrev pub is_wanted : Str → SdkInfo → Bool
  is_wanted k i = memdb_filename i =? k && not (sdk_is_ignored env i)

  -- What the whole loop leaves: the remote entry at every key of an SDK that is not ignored.
  pub record AllSynced (remote local : SdkSyncState) (is : List SdkInfo) (local' : SdkSyncState)
      : Type 0 where
    pub keyed : IsKeyed local'.sdks
    pub revision : Advanced (length is) local local'
    pub entries :
        (k : Str)
        → Map.get k local'.sdks
          ≡ (if any (is_wanted k) is then Map.get k remote.sdks else Map.get k local.sdks)

module _ (env : Env) (reliable : Reliable env) where
  update_sdk_ok :
      (sdk : RemoteSdk) (w : World) → (w' : World) × (update_sdk env sdk w ≡ (ok tt, w'))
  unfolding update_sdk
  update_sdk_ok sdk w =
      let (bytes, e) = reliable.downloads sdk in
      (record w { files = Map.insert (memdb_filename sdk.info) bytes w.files }, rw (e, update_sdk))

  pub save_local_state_ok :
      (s : SdkSyncState) (w : World)
      → save_local_state env s w
        ≡ (ok tt, record w { state_file = StateFile.saved s; local_state = some s })
  unfolding save_local_state
  save_local_state_ok s w = rw (reliable.saves s, save_local_state)

  refresh_ok :
      (local : SdkSyncState) (info : SdkInfo) (sdk : RemoteSdk) (w : World)
      → (changed : Bool) × (w' : World) × (refresh env local info sdk w ≡ (ok changed, w'))
        × (changed ≡ false → get_sdk local info ≡ some sdk)
  unfolding refresh
  refresh_ok local info sdk w =
      let (w', e) = update_sdk_ok sdk w in
      elim (Option-cases (get_sdk local info)) [
        | inl absent ↦ (true, w', rw (absent, refresh) (>>=_ok (update_sdk env sdk) _ w e), λ h. cc)
        | inr (old, present) ↦ elim (Bool-cases (same_sdk old sdk)) [
          | inl same ↦ (
            false,
            w,
            rw (present, refresh, same),
            λ _. present ∙ ap some (same_sdk-eq old sdk same),
          )
          | inr differ ↦ (
            true,
            (evict env info w').1,
            rw (present, refresh, differ)
                (>>=_ok (update_sdk env sdk) _ w e ∙ unfold evict in refl),
            λ h. cc,
          )
        ]
      ]

  record_change_ok :
      (remote local : SdkSyncState) (info : SdkInfo) (sdk : RemoteSdk) (changed : Bool) (w : World)
      → IsKeyed local.sdks
      → sdk_is_ignored env info ≡ false
      → get_sdk remote info ≡ some sdk
      → memdb_filename sdk.info ≡ memdb_filename info
      → (changed ≡ false → get_sdk local info ≡ some sdk)
      → (local' : SdkSyncState) × (w' : World) × (record_change env local sdk changed w
          ≡ (ok local', w'))
        × Synced env remote local info local'
  unfolding record_change get_sdk state_update_sdk bump
  record_change_ok remote local info sdk false w keyed wanted found key same = (
    local,
    w,
    refl,
    record {
      keyed = keyed;
      revision = same-Advanced 1 local;
      entries = λ k. rw wanted (elim (Bool-cases (memdb_filename info =? k)) [
        | inr other ↦ rw other
        | inl here ↦ rw (here, ← eq_of_=? _ k here, found) (same refl)
      ]);
    },
  )
  record_change_ok remote local info sdk true w keyed wanted found key same = (
    bump (state_update_sdk local sdk),
    record w {
      state_file = StateFile.saved (bump (state_update_sdk local sdk));
      local_state = some (bump (state_update_sdk local sdk));
    },
    >>=_ok (save_local_state env (bump (state_update_sdk local sdk))) _ w
        (save_local_state_ok (bump (state_update_sdk local sdk)) w),
    record {
      keyed = insert-IsKeyed sdk keyed;
      revision = record {
        room = (bump-Advanced (state_update_sdk local sdk)).room;
        newer = (bump-Advanced (state_update_sdk local sdk)).newer;
      };
      entries = λ k.
          Map.get-insert k (memdb_filename sdk.info) sdk local.sdks
          ∙ rw (key, wanted)
              (elim (Bool-cases (memdb_filename info =? k)) [
                | inr other ↦ rw other
                | inl here ↦ rw (here, ← eq_of_=? _ k here, found)
              ]);
    },
  )

  -- The loop body at an SDK that the remote state has.
  sync_one_ok :
      (remote local : SdkSyncState) (info : SdkInfo) (sdk : RemoteSdk) (w : World)
      → IsKeyed remote.sdks
      → IsKeyed local.sdks
      → get_sdk remote info ≡ some sdk
      → (local' : SdkSyncState) × (w' : World) × (sync_one env remote local info w
          ≡ (ok local', w'))
        × Synced env remote local info local'
  unfolding sync_one sync_found
  sync_one_ok remote local info sdk w known keyed found =
      elim (Bool-cases (sdk_is_ignored env info)) [
        | inl skipped ↦ (
          local,
          w,
          rw skipped,
          record {
            keyed = keyed;
            revision = same-Advanced 1 local;
            entries = λ k. rw skipped (ground arith);
          },
        )
        | inr wanted ↦
            let key : memdb_filename sdk.info ≡ memdb_filename info =
              get-Keyed (memdb_filename info) remote.sdks sdk known.keyed
                (unfold get_sdk in found) in
            let (changed, w₁, e₁, same) = refresh_ok local info sdk w in
            let (local', w₂, e₂, synced) =
              record_change_ok remote local info sdk changed w₁ keyed wanted found key same in
            (
              local',
              w₂,
              rw (wanted, found) (>>=_ok (refresh env local info sdk) _ w e₁ ∙ e₂),
              synced,
            )
      ]

  pub sync_loop_ok :
      (remote local : SdkSyncState) (del is : List SdkInfo) (w : World)
      → IsKeyed remote.sdks
      → IsKeyed local.sdks
      → All (λ i. (sdk : RemoteSdk) × (get_sdk remote i ≡ some sdk)) is
      → (local' : SdkSyncState) × (w' : World) × (sync_loop env remote local del is w
          ≡ (ok (local', discard_all is del), w'))
        × AllSynced env remote local is local'
  unfolding sync_loop
  sync_loop_ok remote local del [] w known keyed found = (
    local,
    w,
    refl,
    record { keyed = keyed; revision = same-Advanced 0 local; entries = λ k. refl },
  )
  sync_loop_ok remote local del (i ∷ is) w known keyed ((sdk, e), found) =
      let (local₁, w₁, e₁, one) = sync_one_ok remote local i sdk w known keyed e in
      let (local₂, w₂, e₂, rest) =
        sync_loop_ok remote local₁ (discard i del) is w₁ known one.keyed found in
      (
        local₂,
        w₂,
        >>=_ok (sync_one env remote local i) _ w e₁ ∙ e₂,
        record {
          keyed = rest.keyed;
          revision = later-Advanced (length is) local local₁ local₂ one.revision rest.revision;
          entries = λ k. rest.entries k ∙ rw (one.entries k) (ground arith);
        },
      )
