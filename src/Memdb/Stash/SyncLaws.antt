-- ===== src/Memdb/Stash/SyncLaws.antt =====
-- What `sync` leaves in the state of the stash.
use symbolserver.Prelude.{
  ℕ, ◌+◌, ◌^◌, length, ◌<◌, ◌≡◌, refl, ap, ◌∙◌, Bool, true, false, not, ◌&&◌,
}
use symbolserver.Prelude.{
  Option, none, some, List, [], ◌∷◌, any, any-ap, ◌⊎◌, arith, Bool-cases, inl, inr,
}
use symbolserver.Prelude.{if◌then◌else◌, Option-cases}
use symbolserver.Prelude.Order.{◌=?◌, =?_refl, eq_of_=?, nat_ord, list_ord}
use symbolserver.Prelude.Map
use symbolserver.Prelude.Map.{Map, =?_sym}
use symbolserver.Prelude.Sort.{sort_by, any-sort_by, length-sort_by, sort_by-All}
use symbolserver.Errors.{Str, Result, ok, err, panic, undefined}
use symbolserver.Sdk.{SdkInfo, sdk_ord, memdb_filename}
use symbolserver.Memdb.Stash.State.{
  RemoteSdk, SdkSyncState, get_sdk, state_remove_sdk, bump, revision_or_zero, World, Env, StateFile,
  >>=_ok,
}
use symbolserver.Memdb.Stash.Sync.{
  sdk_is_ignored, sync_loop, discard, delete_loop, delete_found, infos, descending, sync_with, sync,
  read_local_state, fetch_remote_state, insert_all,
}
use symbolserver.Memdb.Stash.Keyed.{
  IsKeyed, remove-IsKeyed, insert_all-IsKeyed, any-infos, get-Keyed, infos_found,
}
use symbolserver.Memdb.Stash.SyncLoop.{
  Reliable, Advanced, sync_loop_ok, discard_all, is_wanted, save_local_state_ok,
}

-- The second loop only forgets entries: it leaves the world alone.
record Forgot (local : SdkSyncState) (del : List SdkInfo) (local' : SdkSyncState) : Type 0 where
  keyed : IsKeyed local'.sdks
  same_revision : revision_or_zero local' ≡ revision_or_zero local
  entries :
      (k : Str)
      → Map.get k local'.sdks
        ≡ (if any (λ i. memdb_filename i =? k) del then none else Map.get k local.sdks)

delete_loop_ok :
    (env : Env) (local : SdkSyncState) (del : List SdkInfo) (w : World)
    → IsKeyed local.sdks
    → (local' : SdkSyncState) × (delete_loop env local del w ≡ (ok local', w))
      × Forgot local del local'
unfolding delete_loop delete_found get_sdk state_remove_sdk
delete_loop_ok env local [] w keyed =
    (local, refl, record { keyed = keyed; same_revision = refl; entries = λ k. refl })
delete_loop_ok env local (i ∷ del) w keyed =
    let (local', e, f) =
      delete_loop_ok env (state_remove_sdk local i) del w
        (remove-IsKeyed (memdb_filename i) keyed) in
    let gone : Map.get (memdb_filename i) (Map.remove (memdb_filename i) local.sdks) ≡ none =
      Map.get-remove (memdb_filename i) (memdb_filename i) local.sdks
      ∙ rw (=?_refl (memdb_filename i)) in
    (
      local',
      rw gone e,
      record {
        keyed = f.keyed;
        same_revision = f.same_revision;
        entries =
            λ k. f.entries k ∙ rw (Map.get-remove k (memdb_filename i) local.sdks) (ground arith);
      },
    )

any-discard :
    (q : SdkInfo → Bool) (i : SdkInfo) (xs : List SdkInfo)
    → any q (discard i xs) ≡ any (λ j. q j && not (j =? i)) xs
unfolding discard
any-discard q i [] = refl
any-discard q i (x ∷ xs) = ground (arith, any-discard q i xs)

any-discard_all :
    (q : SdkInfo → Bool) (is xs : List SdkInfo)
    → any q (discard_all is xs) ≡ any (λ j. q j && not (any (λ i. j =? i) is)) xs
any-discard_all q [] xs = any-ap _ _ xs (λ j. ground arith)
any-discard_all q (i ∷ is) xs =
    any-discard_all q is (discard i xs)
    ∙ (any-discard (λ j. q j && not (any (λ i. j =? i) is)) i xs
        ∙ any-ap _ _ xs (λ j. ground arith))

-- A local and a remote SDK with one file name are the same.
abbrev pub Distinct : Map Str RemoteSdk → Map Str RemoteSdk → Type 0
Distinct local remote =
    (k : Str) (s r : RemoteSdk)
    → Map.get k local ≡ some s
    → Map.get k remote ≡ some r
    → s.info ≡ r.info

-- What a sync makes of the entry of a file name: the remote SDK if there is one that is not
-- ignored, the old entry if it is ignored, and nothing if the bucket has none.
abbrev pub synced_entry : Env → Map Str RemoteSdk → Map Str RemoteSdk → Str → Option RemoteSdk
synced_entry env local remote k = elim (Map.get k remote) [
  | none ↦ none
  | some r ↦ if sdk_is_ignored env r.info then Map.get k local else some r
]

module _ (local remote : Map Str RemoteSdk) (lk : IsKeyed local) (rk : IsKeyed remote)
    (distinct : Distinct local remote) where
  -- Whether the SDK of a local entry is in the bucket.
  listed : SdkInfo → Bool
  listed j = any (λ i. j =? i) (sort_by descending (infos remote))

  listed_lem :
      (k : Str) (s : RemoteSdk)
      → Map.get k local ≡ some s
      → listed s.info ≡ elim (Map.get k remote) [ none ↦ false | some r ↦ true ]
  unfolding listed
  listed_lem k s at =
      any-sort_by descending (λ i. s.info =? i) (infos remote)
      ∙ (any-ap _ _ (infos remote) own_name
          ∙ (any-infos (λ i. s.info =? i) k rk ∙ there (Option-cases (Map.get k remote))))
    where
      key : memdb_filename s.info ≡ k
      key = get-Keyed k local s lk.keyed at

      own_name : (i : SdkInfo) → (s.info =? i) ≡ (memdb_filename i =? k && s.info =? i)
      own_name i = elim (Bool-cases (s.info =? i)) [
        | inr e ↦ rw e (ground arith)
        | inl e ↦
            let f : (memdb_filename i =? k) ≡ true = rw (← eq_of_=? s.info i e, key) (=?_refl k) in
            rw (e, f)
      ]

      there :
          (Map.get k remote ≡ none) ⊎ ((r : RemoteSdk) × (Map.get k remote ≡ some r))
          → (elim (Map.get k remote) [ none ↦ false | some r ↦ s.info =? r.info ])
            ≡ (elim (Map.get k remote) [ none ↦ false | some r ↦ true ])
      there (inl e) = rw e
      there (inr (r, e)) = rw (e, distinct k s r at e) (=?_refl r.info)

  -- What the first loop leaves to delete.
  to_delete : List SdkInfo
  to_delete = discard_all (sort_by descending (infos remote)) (infos local)

  to_delete_lem :
      (k : Str)
      → any (λ i. memdb_filename i =? k) to_delete
        ≡ elim (Map.get k local) [ none ↦ false | some s ↦ not (listed s.info) ]
  unfolding to_delete listed
  to_delete_lem k =
      any-discard_all (λ i. memdb_filename i =? k) (sort_by descending (infos remote)) (infos local)
      ∙ any-infos (λ j. not (listed j)) k lk

  wanted_lem :
      (env : Env) (k : Str)
      → any (is_wanted env k) (sort_by descending (infos remote))
        ≡ elim (Map.get k remote) [ none ↦ false | some r ↦ not (sdk_is_ignored env r.info) ]
  wanted_lem env k =
      any-sort_by descending (is_wanted env k) (infos remote)
      ∙ any-infos (λ i. not (sdk_is_ignored env i)) k rk

  -- Both loops together, at one key.
  entry_lem :
      (env : Env) (k : Str)
      → (if any (λ i. memdb_filename i =? k) to_delete
          then none
          else if any (is_wanted env k) (sort_by descending (infos remote))
          then Map.get k remote
          else Map.get k local)
        ≡ synced_entry env local remote k
  entry_lem env k =
      rw (to_delete_lem k, wanted_lem env k)
        (go (Option-cases (Map.get k remote)) (Option-cases (Map.get k local)))
    where
      go :
          (Map.get k remote ≡ none) ⊎ ((r : RemoteSdk) × (Map.get k remote ≡ some r))
          → (Map.get k local ≡ none) ⊎ ((s : RemoteSdk) × (Map.get k local ≡ some s))
          → (if (elim (Map.get k local) [ none ↦ false | some s ↦ not (listed s.info) ])
              then none
              else if (elim (Map.get k remote) [
                | none ↦ false
                | some r ↦ not (sdk_is_ignored env r.info)
              ])
              then Map.get k remote
              else Map.get k local)
            ≡ synced_entry env local remote k
      go (inl r) (inl l) = rw (r, synced_entry, l)
      go (inl r) (inr (s, l)) = rw (r, synced_entry, l, listed_lem k s l) (rw r)
      go (inr (r, e)) (inl l) = rw (e, synced_entry, l) (ground arith)
      go (inr (r, e)) (inr (s, l)) = rw (e, synced_entry, l, listed_lem k s l) (rw e (ground arith))

-- After a sync with a reliable outside, the saved state and the state in memory are the same. It
-- has at every file name the remote SDK, or the old entry if the SDK is ignored, or nothing if the
-- bucket has none.
pub record IsSynced (env : Env) (local remote : SdkSyncState) (w : World) : Type 0 where
  pub state : SdkSyncState
  pub on_disk : w.state_file ≡ StateFile.saved state
  pub in_memory : w.local_state ≡ some state
  pub keyed : IsKeyed state.sdks
  pub entries : (k : Str) → Map.get k state.sdks ≡ synced_entry env local.sdks remote.sdks k

-- The revision goes up once for each SDK that is downloaded and once at the end. There is room for
-- that in a `u64`.
abbrev pub HasRoom : SdkSyncState → SdkSyncState → Type 0
HasRoom local remote = revision_or_zero local + length remote.sdks + 1 < 2 ^ 64

length-infos : (m : Map Str RemoteSdk) → length (sort_by descending (infos m)) ≡ length m
length-infos m = length-sort_by descending (infos m) ∙ go m
  where
    go : (m : Map Str RemoteSdk) → length (infos m) ≡ length m
    go [] = refl
    go (_ ∷ m) = omega (arith, go m)

bump-newer :
    (a b c : SdkSyncState) (m n : ℕ)
    → Advanced m a b
    → revision_or_zero c ≡ revision_or_zero b
    → m ≡ n
    → revision_or_zero a + n + 1 < 2 ^ 64
    → revision_or_zero a < revision_or_zero (bump c)
unfolding bump
bump-newer a b c m n h same e small =
    let le = h.newer (omega (arith, e, small)) in omega (arith, le, h.room, same, e, small)

module _ (env : Env) (reliable : Reliable env) where
  sync_with_ok :
      (local remote : SdkSyncState) (w : World)
      → IsKeyed local.sdks
      → IsKeyed remote.sdks
      → Distinct local.sdks remote.sdks
      → (w' : World) × (sync_with env local remote w ≡ (ok tt, w'))
        × ((done : IsSynced env local remote w') × (HasRoom local remote
              → revision_or_zero local < revision_or_zero done.state))
  unfolding sync_with bump to_delete
  sync_with_ok local remote w lk rk distinct =
      let is = sort_by descending (infos remote.sdks) in
      let found =
        sort_by-All descending (λ (i : SdkInfo). (s : RemoteSdk) × (get_sdk remote i ≡ some s))
          (infos remote.sdks) (unfold get_sdk in infos_found remote.sdks rk.keyed) in
      let (local₁, w₁, e₁, all) =
        sync_loop_ok env reliable remote local (infos local.sdks) is w rk lk found in
      let (local₂, e₂, forgot) =
        delete_loop_ok env local₁ (discard_all is (infos local.sdks)) w₁ all.keyed in
      (
        record w₁ { state_file = StateFile.saved (bump local₂); local_state = some (bump local₂) },
        >>=_ok (sync_loop env remote local (infos local.sdks) is) _ w e₁
            ∙ (>>=_ok (delete_loop env local₁ (discard_all is (infos local.sdks))) _ w₁ e₂
                ∙ save_local_state_ok env reliable (bump local₂) w₁),
        (
          record {
            state = bump local₂;
            on_disk = refl;
            in_memory = refl;
            keyed = forgot.keyed;
            entries = λ k.
                forgot.entries k
                ∙ (rw (all.entries k) (entry_lem local.sdks remote.sdks lk rk distinct env k));
          },
          λ small.
              bump-newer local local₁ local₂ (length is) (length remote.sdks) all.revision
                forgot.same_revision (length-infos remote.sdks) small,
        ),
      )

pub fetch_remote_state-IsKeyed :
    (env : Env) (remote : SdkSyncState) → fetch_remote_state env ≡ ok remote → IsKeyed remote.sdks
unfolding fetch_remote_state
fetch_remote_state-IsKeyed env remote h = go env.upstream h
  where
    go :
        (u : Result (List RemoteSdk))
        → (elim u [
          | ok sdks ↦ ok (record { sdks = insert_all [] sdks; revision = none })
          | err e ↦ err e
          | panic ↦ panic
          | undefined ↦ undefined
        ])
          ≡ ok remote
        → IsKeyed remote.sdks
    go (ok sdks) h =
        let e : insert_all [] sdks ≡ remote.sdks = ap sdks_of h in
        rw e at (insert_all-IsKeyed sdks {m = []} (record { nodup = tt; keyed = tt }))
      where
        sdks_of : Result SdkSyncState → Map Str RemoteSdk
        sdks_of (ok s) = s.sdks
        sdks_of _ = []
    go (err e) h = cc
    go panic h = cc
    go undefined h = cc

-- A sync, whatever the revision.
pub sync_ok :
    (env : Env) (w w₀ : World) (local remote : SdkSyncState)
    → Reliable env
    → read_local_state w ≡ (ok local, w₀)
    → fetch_remote_state env ≡ ok remote
    → IsKeyed local.sdks
    → Distinct local.sdks remote.sdks
    → (w' : World) × (sync env w ≡ (ok tt, w'))
      × ((done : IsSynced env local remote w') × (HasRoom local remote
            → revision_or_zero local < revision_or_zero done.state))
unfolding sync
sync_ok env w w₀ local remote reliable read fetched keyed distinct =
    let (w', e, done) =
      sync_with_ok env reliable local remote w₀ keyed
        (fetch_remote_state-IsKeyed env remote fetched) distinct in
    (w', >>=_ok read_local_state _ w read ∙ rw (fetched, e), done)

-- A sync succeeds if the state file can be read, S3 lists its SDKs, downloads and writes succeed,
-- the old state has each SDK once and under its own file name, and a local and a remote SDK of one
-- file name are the same. The new state then has at every file name the remote SDK, or the old
-- entry if the SDK is ignored, or nothing if the bucket has none; it is on disk and in memory,
-- with a newer revision. The old revision plus the number of SDKs in the bucket plus one has to be
-- below 2^64, where the revision wraps.
pub sync-IsSynced :
    (env : Env) (w w₀ : World) (local remote : SdkSyncState)
    → Reliable env
    → read_local_state w ≡ (ok local, w₀)
    → fetch_remote_state env ≡ ok remote
    → IsKeyed local.sdks
    → Distinct local.sdks remote.sdks
    → HasRoom local remote
    → (w' : World) × (sync env w ≡ (ok tt, w'))
      × ((done : IsSynced env local remote w') × (revision_or_zero local
            < revision_or_zero done.state))
sync-IsSynced env w w₀ local remote reliable read fetched keyed distinct small =
    let (w', e, (done, newer)) =
      sync_ok env w w₀ local remote reliable read fetched keyed distinct in
    (w', e, (done, newer small))
