-- ===== src/Memdb/Stash/State.antt =====
-- src/memdb/stash.rs: the records of the stash, and the monad of its calls.
use symbolserver.Prelude.{ℕ, ◌+◌, ◌%◌, ◌^◌, ◌≡◌, ap, Bool, ◌&&◌}
use symbolserver.Prelude.{Option, none, some, List, []}
use symbolserver.Prelude.Order.{◌=?◌, nat_ord, list_ord}
use symbolserver.Prelude.Map
use symbolserver.Prelude.Map.{Map, values}
use symbolserver.Errors.{Str, Result, ok, err, panic, undefined, ErrorKind, IoKind}
use symbolserver.Bytes.{Bytes}
use symbolserver.Sdk.{SdkInfo, sdk_ord, memdb_filename}
use symbolserver.Utils.IgnorePatterns.{IgnorePatterns}
use symbolserver.Memdb.Read.{MemDb}

pub record RemoteSdk : Type 0 where
  pub filename : Str
  pub info : SdkInfo
  pub size : ℕ
  pub etag : Str

-- The derived `PartialEq`.
unfoldable pub same_sdk : RemoteSdk → RemoteSdk → Bool
same_sdk a b =
    a.filename =? b.filename && (a.info =? b.info && (a.size =? b.size && a.etag =? b.etag))

-- `sdks` is keyed by `memdb_filename`.
pub record SdkSyncState : Type 0 where
  pub sdks : Map Str RemoteSdk
  pub revision : Option ℕ

abbrev pub default_state : SdkSyncState
default_state = record { sdks = []; revision = none }

unfoldable pub get_sdk : SdkSyncState → SdkInfo → Option RemoteSdk
get_sdk self info = Map.get (memdb_filename info) self.sdks

unfoldable pub state_update_sdk : SdkSyncState → RemoteSdk → SdkSyncState
state_update_sdk self sdk = record self {
  sdks = Map.insert (memdb_filename sdk.info) sdk self.sdks;
}

unfoldable pub state_remove_sdk : SdkSyncState → SdkInfo → SdkSyncState
state_remove_sdk self info = record self { sdks = Map.remove (memdb_filename info) self.sdks }

-- `revision.unwrap_or(0)`
abbrev pub revision_or_zero : SdkSyncState → ℕ
revision_or_zero self = elim self.revision [ none ↦ 0 | some r ↦ r ]

-- `revision = Some(revision.unwrap_or(0) + 1)`: a `u64`, which wraps in a release build.
unfoldable pub bump : SdkSyncState → SdkSyncState
bump self = record self { revision = some ((revision_or_zero self + 1) % 2 ^ 64) }

-- The file `sync.state`, by what an attempt to read and parse it gives.
pub data StateFile : Type 0 where
  missing : StateFile
  unreadable : StateFile
  malformed : StateFile
  saved : SdkSyncState → StateFile

-- The disk and the locks of a `MemDbStash`: the memdb files of its directory, the state file, the
-- state in `local_state`, and the databases in `memdbs`. A loaded database keeps the bytes that its file
-- had when it was loaded: the map of a file that `update_sdk` rewrites in place is not followed.
pub record World : Type 0 where
  pub files : Map Str Bytes
  pub state_file : StateFile
  pub local_state : Option SdkSyncState
  pub memdbs : Map SdkInfo MemDb

-- What the outside answers during one call: S3, and the writes to the disk.
pub record Env : Type 0 where
  -- `list_upstream_sdks`
  pub upstream : Result (List RemoteSdk)
  -- `download_sdk` and `File::create`: an error, or the bytes that reach the file and the error
  -- that stops the copy.
  pub download : RemoteSdk → Result (Bytes × Option ErrorKind)
  -- Writing and renaming the state file.
  pub save : SdkSyncState → Option ErrorKind
  -- `remove_file`
  pub unlink : Str → Option IoKind
  pub ignore_patterns : IgnorePatterns

-- A call changes the world, also when it fails.
abbrev pub M : Type 0 → Type 0
M A = World → Result A × World

abbrev pub after : {A B : Type 0} → (A → M B) → Result A × World → Result B × World
after f (ok a, w) = f a w
after f (err e, w) = (err e, w)
after f (panic, w) = (panic, w)
after f (undefined, w) = (undefined, w)

infixl 5 ◌>>=◌ ◌>>◌
abbrev pub ◌>>=◌ : {A B : Type 0} → M A → (A → M B) → M B
◌>>=◌ m f w = after f (m w)

abbrev pub ◌>>◌ : {B : Type 0} → M (Unit {0}) → M B → M B
m >> k = m >>= λ _. k

abbrev pub pure : {A : Type 0} → A → M A
pure a w = (ok a, w)

-- An outcome that does not touch the world.
abbrev pub lift : {A : Type 0} → Result A → M A
lift r w = (r, w)

-- A step that succeeds hands its value and its world on.
pub >>=_ok :
    {A B : Type 0} (m : M A) (f : A → M B) (w : World) {a : A} {w' : World}
    → m w ≡ (ok a, w')
    → (m >>= f) w ≡ f a w'
>>=_ok m f w e = ap (after f) e
