-- ===== src/Sdk/Objects.antt =====
-- src/sdk.rs: the iteration over the objects of an SDK, and `Sdk::dump_memdb` with the loop of
-- src/memdb/write.rs that drives it. Archives belong to the crate zip, the walk over a directory
-- to walkdir, and the files to the system: their answers are the fields of the records.
use symbolserver.Prelude.{ℕ, zero, suc, ◌+◌, ◌-◌, Bool, true, false, not, ltb, leb, ◌&&◌}
use symbolserver.Prelude.{if◌then◌else◌, Option, none, some, List, [], ◌∷◌, ◌++◌, length}
use symbolserver.Prelude.Order.{◌=?◌, nat_ord, list_ord}
use symbolserver.Errors.{
  Str, Result, ok, err, panic, undefined, ◌>>=◌, ErrorKind, Foreign, foreign, mach_load_error,
}
use symbolserver.Bytes.{Bytes}
use symbolserver.Text.{codes}
use symbolserver.Sdk.{SdkInfo}
use symbolserver.Sdk.Filename.{components, reverse_onto, strip_archive_file_prefix}
use symbolserver.Dsym.{MachObject, Object, from_backing}
use symbolserver.Memdb.Write.{MemDbBuilder, new_builder, write_object}
use symbolserver.Memdb.Write.Flush.{flush}
pub mod Laws

-- A file of an archive: its name, and what `read_to_end` gives.
pub record ZipFile : Type 0 where
  pub name : Str
  pub contents : Result Bytes

pub record ZipArchive : Type 0 where
  pub len : ℕ
  pub by_index : ℕ → Result ZipFile

pub record Metadata : Type 0 where
  pub is_file : Bool
  pub len : ℕ

-- An entry of the walk: its path, its metadata, and what mapping the file gives.
pub record DirEntry : Type 0 where
  pub path : Str
  pub metadata : Result Metadata
  pub mmap : Result Bytes

-- What the file system and the two crates answer for a path.
pub record FileSystem : Type 0 where
  pub metadata : Str → Result Metadata
  pub open_file : Str → Result Bytes
  pub zip_archive : Bytes → Result ZipArchive
  pub walk_dir : Str → List (Result DirEntry)

-- `ObjectIterSource`; of `dir_iter`, the entries that it has not handed out.
pub data ObjectIterSource : Type 0 where
  zip : ZipArchive → ℕ → ObjectIterSource
  dir : Str → List (Result DirEntry) → ObjectIterSource

-- `ObjectIterSource::from_path`
unfoldable pub source_from_path : FileSystem → Str → Result ObjectIterSource
source_from_path fs path = do
  md ← fs.metadata path
  if md.is_file
      then (do f ← fs.open_file path; archive ← fs.zip_archive f; ok (zip archive 0))
      else ok (dir path (fs.walk_dir path))

-- What a file comes to in the loop of `next`: `continue`, or an item that is returned.
pub data Turn : Type 0 where
  continue_loop : Turn
  return_item : Result (Str × Object) → Turn

-- `iter_try!`
unfoldable pub iter_try : {A : Type 0} → Result A → (A → Turn) → Turn
iter_try (ok a) f = f a
iter_try (err e) f = return_item (err e)
iter_try panic f = return_item panic
iter_try undefined f = return_item undefined

unfoldable pub is_load_error : ErrorKind → Bool
is_load_error (foreign mach_load_error) = true
is_load_error _ = false

-- `try_return_obj!`
unfoldable pub try_return_obj : Result Object → Str → Turn
try_return_obj (ok rv) name = return_item (ok (codes "/" ++ name, rv))
try_return_obj (err e) name = if is_load_error e then continue_loop else return_item (err e)
try_return_obj panic name = return_item panic
try_return_obj undefined name = return_item undefined

unfoldable pub is_ok : {A : Type 0} → Result A → Bool
is_ok (ok a) = true
is_ok (err e) = false
is_ok panic = false
is_ok undefined = false

-- `Path::join` of one name.
unfoldable pub join_onto : ℕ → Str → Str → Str
join_onto c [] name = if c =? b'/' then c ∷ name else c ∷ b'/' ∷ name
join_onto c (d ∷ path) name = c ∷ join_onto d path name

unfoldable pub join : Str → Str → Str
join [] name = name
join (c ∷ path) name = join_onto c path name

has_root : Str → Bool
has_root [] = false
has_root (c ∷ path) = c =? b'/'

strip_parts : List Str → List Str → Option (List Str)
strip_parts [] parts = some parts
strip_parts (p ∷ base) [] = none
strip_parts (p ∷ base) (q ∷ parts) =
    let rest = strip_parts base parts in if p =? q then rest else none

display_parts : List Str → Str
display_parts [] = []
display_parts (p ∷ []) = p
display_parts (p ∷ q ∷ rest) = p ++ (codes "/" ++ display_parts (q ∷ rest))

-- `Path::strip_prefix`, by components, and how the rest is displayed.
unfoldable pub strip_prefix : Str → Str → Option Str
unfolding has_root strip_parts display_parts reverse_onto components
strip_prefix base path =
    if (if has_root base then has_root path else not (has_root path))
    then elim (strip_parts (reverse_onto [] (components base))
        (reverse_onto [] (components path))) [ none ↦ none | some rest ↦ some (display_parts rest) ]
    else none

-- The files that are looked at in the source from here on, and `file_count`.
unfoldable pub remaining : ObjectIterSource → ℕ
remaining (zip archive idx) = archive.len - idx
remaining (dir path entries) = length entries

-- `Objects::file_count`; a directory is walked once more.
unfoldable pub file_count : FileSystem → ObjectIterSource → ℕ
file_count fs (zip archive idx) = archive.len
file_count fs (dir path entries) = length (fs.walk_dir path)

module _ (lib : MachObject) where
  -- The body of the loop behind `by_index`; `Object::from_vec` is `from_backing`.
  unfoldable pub read_zip_file : ZipFile → Turn
  read_zip_file f = iter_try f.contents (λ buf.
      if ltb 0 (length buf)
      then try_return_obj (from_backing lib buf) (strip_archive_file_prefix f.name)
      else continue_loop)

  -- The body of the loop behind `dir_iter.next`; `Object::from_path` maps the file.
  unfoldable pub read_dir_entry : Str → DirEntry → Turn
  read_dir_entry path dent = iter_try dent.metadata (λ md.
      let rp : Str = elim (strip_prefix (join path (codes "Symbols")) dent.path) [
        | some rest ↦ rest
        | none ↦ dent.path
      ] in
      if md.is_file && ltb 0 md.len
      then try_return_obj (dent.mmap >>= from_backing lib) rp
      else continue_loop)

  -- A turn of the loop of `next`; `none` is its `break`. The index moves on behind `by_index`, when
  -- that succeeds.
  unfoldable pub turn : ObjectIterSource → Option (Turn × ObjectIterSource)
  turn (zip archive idx) =
      let opened = archive.by_index idx in
      if leb archive.len idx
      then none
      else some (iter_try opened read_zip_file, zip archive (if is_ok opened then suc idx else idx))
  turn (dir path []) = none
  turn (dir path (dent_res ∷ rest)) = some (iter_try dent_res (read_dir_entry path), dir path rest)

  -- `Objects::next` on fuel, from the offset that the loop has reached.
  unfoldable pub next_loop :
      ℕ → ℕ → ObjectIterSource → Option (Result (ℕ × (Str × Object))) × ObjectIterSource
  next_loop zero offset source = (none, source)
  next_loop (suc fuel) offset source = elim (turn source) [
    | none ↦ (none, source)
    | some (continue_loop, source') ↦ next_loop fuel (suc offset) source'
    | some (return_item item, source') ↦ (some (item >>= λ a. ok (suc offset, a)), source')
  ]

  -- Each turn that goes on has looked at one more file, so that this fuel is enough.
  unfoldable pub next : ObjectIterSource → Option (Result (ℕ × (Str × Object))) × ObjectIterSource
  next source = next_loop (suc (remaining source)) 0 source

  -- The loop of `dump_memdb` over the objects, with the position of the progress bar.
  unfoldable pub process_objects :
      ℕ → ObjectIterSource → ℕ → MemDbBuilder → Result (MemDbBuilder × ℕ)
  process_objects zero source pos builder = ok (builder, pos)
  process_objects (suc fuel) source pos builder =
      let (obj_res, source') = next source in
      elim obj_res [
        | none ↦ ok (builder, pos)
        | some res ↦ do
          (offset, (filename, obj)) ← res
          builder' ← write_object lib obj (some filename) builder
          process_objects fuel source' (pos + offset) builder'
      ]

-- `Sdk`
pub record Sdk : Type 0 where
  pub path : Str
  pub info : SdkInfo

-- `Sdk::objects`
unfoldable pub objects : FileSystem → Sdk → Result ObjectIterSource
objects fs self = source_from_path fs self.path

-- `Sdk::dump_memdb`, with the function that compresses as a parameter.
unfoldable pub sdk_dump_memdb :
    MachObject → (Bytes → Bytes) → FileSystem → Sdk → Bool → Result Bytes
sdk_dump_memdb lib xz fs self compress = do
  source ← objects fs self
  (builder, pos) ←
      process_objects lib (suc (remaining source)) source 0 (new_builder self.info compress)
  flush xz builder
