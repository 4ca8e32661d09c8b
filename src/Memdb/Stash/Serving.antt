-- ===== src/Memdb/Stash/Serving.antt =====
-- src/memdb/stash.rs: the databases that the stash gets are those of its files, loaded or not.
use symbolserver.Prelude.{◌≡◌, refl, ap, ◌∙◌}
use symbolserver.Prelude.{Option, none, some, Bool-cases, Option-cases, inl, inr}
use symbolserver.Prelude.Order.{◌=?◌, eq_of_=?, nat_ord, list_ord}
use symbolserver.Prelude.Map
use symbolserver.Prelude.Map.{Map}
use symbolserver.Errors.{Str, Result, ok, err, panic, undefined, unknown_sdk, io, IoKind}
use symbolserver.Bytes.{Bytes}
use symbolserver.Memdb.Read.{MemDb, load_memdb}
use symbolserver.Sdk.{SdkInfo, sdk_ord, memdb_filename}
use symbolserver.Memdb.Stash.State.{SdkSyncState, get_sdk, StateFile, RemoteSdk, World, M, after}
use symbolserver.Memdb.Stash.Sync.{get_local_state, read_local_state}
use symbolserver.Memdb.Stash.Queries.{get_memdb, get_memdb_uncached, open_memdb, cache_memdb}

-- What the file of an SDK gives, for a state and the files of the stash: the error of an SDK that
-- is not in the state, of a file that is missing, or of the reader, or its database.
abbrev pub served : SdkSyncState → Map Str Bytes → SdkInfo → Result MemDb
served local files i = elim (get_sdk local i) [
  | none ↦ err unknown_sdk
  | some _ ↦ elim (Map.get (memdb_filename i) files) [
    | none ↦ err (io IoKind.not_found)
    | some bytes ↦ load_memdb bytes
  ]
]

-- The databases of a cache are those of the files.
abbrev pub Agrees : (SdkInfo → Result MemDb) → Map SdkInfo MemDb → Type 0
Agrees db cache = (i : SdkInfo) (m : MemDb) → Map.get i cache ≡ some m → db i ≡ ok m

-- Getting the state changes neither the files nor the databases, and getting it again gives it again.
local_kept :
    (w : World)
    → ((get_local_state w).1.files ≡ w.files)
      × ((get_local_state w).1.memdbs ≡ w.memdbs)
      × ((get_local_state (get_local_state w).1).0 ≡ (get_local_state w).0)
unfolding get_local_state read_local_state
local_kept w = by_state w.local_state w.state_file refl refl
  where
    unchanged :
        get_local_state w ≡ ((get_local_state w).0, w)
        → ((get_local_state w).1.files ≡ w.files)
          × ((get_local_state w).1.memdbs ≡ w.memdbs)
          × ((get_local_state (get_local_state w).1).0 ≡ (get_local_state w).0)
    unchanged same = (
      ap (λ o. o.1.files) same,
      ap (λ o. o.1.memdbs) same,
      ap (λ o. (get_local_state o.1).0) same,
    )

    by_state :
        (l : Option SdkSyncState) (f : StateFile)
        → w.local_state ≡ l
        → w.state_file ≡ f
        → ((get_local_state w).1.files ≡ w.files)
          × ((get_local_state w).1.memdbs ≡ w.memdbs)
          × ((get_local_state (get_local_state w).1).0 ≡ (get_local_state w).0)
    by_state (some s) f e k = rw (get_local_state, e) (refl, refl, rw (get_local_state, e) refl)
    by_state none StateFile.missing e k =
        rw (get_local_state, e, read_local_state, k) (refl, refl, refl)
    by_state none StateFile.unreadable e k =
        unchanged (simp (get_local_state, e, read_local_state, k))
    by_state none StateFile.malformed e k =
        unchanged (simp (get_local_state, e, read_local_state, k))
    by_state none (StateFile.saved s) e k =
        rw (get_local_state, e, read_local_state, k) (refl, refl, refl)

-- The databases do not matter for the state.
local_memdbs :
    (w : World) (m : Map SdkInfo MemDb)
    → (get_local_state (record w { memdbs = m })).0 ≡ (get_local_state w).0
unfolding get_local_state read_local_state
local_memdbs w m = by_state w.local_state w.state_file refl refl
  where
    by_state :
        (l : Option SdkSyncState) (f : StateFile)
        → w.local_state ≡ l
        → w.state_file ≡ f
        → (get_local_state (record w { memdbs = m })).0 ≡ (get_local_state w).0
    by_state (some s) f e k = rw (get_local_state, e) refl
    by_state none StateFile.missing e k = rw (get_local_state, e, read_local_state, k) refl
    by_state none StateFile.unreadable e k = rw (get_local_state, e, read_local_state, k) refl
    by_state none StateFile.malformed e k = rw (get_local_state, e, read_local_state, k) refl
    by_state none (StateFile.saved s) e k = rw (get_local_state, e, read_local_state, k) refl

pub Agrees-insert :
    (db : SdkInfo → Result MemDb) (cache : Map SdkInfo MemDb) (i : SdkInfo) (m : MemDb)
    → Agrees db cache
    → db i ≡ ok m
    → Agrees db (Map.insert i m cache)
Agrees-insert db cache i m agrees here j n at = elim (Bool-cases (i =? j)) [
  | inl same ↦
      let e : some m ≡ some n = rw (Map.get-insert j i m cache, same) at at in
      let e' : m ≡ n = cc e in rw (← e', ← eq_of_=? i j same) here
  | inr other ↦
      let e : Map.get j cache ≡ some n = rw (Map.get-insert j i m cache, other) at at in
      agrees j n e
]

module _ (local : SdkSyncState) (files : Map Str Bytes) where
  -- The state can be read, the files are these, and what is loaded is what they give.
  pub record Serves (w : World) : Type 0 where
    pub state : (get_local_state w).0 ≡ ok local
    pub same_files : w.files ≡ files
    pub loaded : Agrees (served local files) w.memdbs

  -- Getting a database gives what its file gives.
  pub record Opens (i : SdkInfo) (out : Result MemDb × World) : Type 0 where
    pub value : out.0 ≡ served local files i
    pub serves : Serves out.1

  cache-Opens :
      (i : SdkInfo) (r : Result MemDb) (w : World)
      → served local files i ≡ r
      → Serves w
      → Opens i (after (cache_memdb i) (r, w))
  cache-Opens i (ok m) w e s = record {
    value = rw e refl;
    serves = record {
      state = local_memdbs w (Map.insert i m w.memdbs) ∙ s.state;
      same_files = s.same_files;
      loaded = Agrees-insert (served local files) w.memdbs i m s.loaded e;
    };
  }
  cache-Opens i (err x) w e s = record { value = rw e refl; serves = s }
  cache-Opens i panic w e s = record { value = rw e refl; serves = s }
  cache-Opens i undefined w e s = record { value = rw e refl; serves = s }

  Serves-local : (w : World) → Serves w → Serves (get_local_state w).1
  Serves-local w s =
      let (f, m, l) = local_kept w in
      record {
        state = l ∙ s.state;
        same_files = f ∙ s.same_files;
        loaded = λ i n at. s.loaded i n (rw m at at);
      }

  -- The body of `get_memdb` behind the state.
  abbrev load : SdkInfo → Option RemoteSdk → M MemDb
  load i none w = (err unknown_sdk, w)
  load i (some _) w = after (cache_memdb i) (open_memdb i w)

  load-Opens :
      (i : SdkInfo) (found : Option RemoteSdk) (w : World)
      → get_sdk local i ≡ found
      → Serves w
      → Opens i (load i found w)
  unfolding open_memdb
  load-Opens i none w e s = record { value = rw (served, e) refl; serves = s }
  load-Opens i (some r) w e s = elim (Option-cases (Map.get (memdb_filename i) files)) [
    | inl missing ↦
        rw (open_memdb, s.same_files, missing)
          (record { value = rw (served, e, missing) refl; serves = s })
    | inr (bytes, there) ↦
        rw (open_memdb, s.same_files, there)
          (cache-Opens i (load_memdb bytes) w (rw (served, e, there) refl) s)
  ]

  pub get_memdb-Opens : (i : SdkInfo) (w : World) → Serves w → Opens i (get_memdb i w)
  unfolding get_memdb get_memdb_uncached
  get_memdb-Opens i w s = elim (Option-cases (Map.get i w.memdbs)) [
    | inr (m, e) ↦ rw (get_memdb, e) (record { value = rw (s.loaded i m e) refl; serves = s })
    | inl e ↦
        let read : get_local_state w ≡ (ok local, (get_local_state w).1) =
          λ k. (s.state k, (get_local_state w).1) in
        let opens = load-Opens i (get_sdk local i) (get_local_state w).1 refl (Serves-local w s) in
        rw (get_memdb, get_memdb_uncached, e, read)
          (elim (Option-cases (get_sdk local i)) [
            | inl absent ↦ rw (after, absent) (rw absent at opens)
            | inr (r, there) ↦ rw (after, there) (rw there at opens)
          ])
  ]
