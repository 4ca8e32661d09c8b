-- ===== src/Cli.antt =====
-- src/cli.rs: the actions of the commands. The parsing of the command line is clap's: its answers
-- are the fields of the records. What an action prints is left out, but for the lines of a dump.
use symbolserver.Prelude.{ℕ, ◌+◌, ◌-◌, ◌^◌, Bool, true, false, ◌==◌, ◌&&◌, if◌then◌else◌}
use symbolserver.Prelude.{Option, none, some, List, [], ◌∷◌, ◌++◌, map}
use symbolserver.Prelude.Order.{◌=?◌, nat_ord, list_ord}
use symbolserver.Errors.{Str, Result, ok, err, panic, undefined, msg, ◌>>=◌, ◌>>◌}
use symbolserver.Bytes.{Bytes}
use symbolserver.Text.{codes, from_str_radix, read_nonempty}
use symbolserver.Text.Paths.{set_extension}
use symbolserver.Sdk.{SdkInfo, memdb_filename, sdk_id}
use symbolserver.Sdk.Filename.{sdk_new, from_filename}
use symbolserver.Sdk.Objects.{FileSystem, Sdk, sdk_dump_memdb}
use symbolserver.Dsym.{MachObject}
use symbolserver.Config.{ℤ, pos, negsuc, Config, Outside, option_result, get_server_threads}
use symbolserver.Memdb.Types.{Uuid}
use symbolserver.Memdb.Read.{Symbol}
use symbolserver.Memdb.Lookup.{find_uuid_fuzzy, iter_symbols}
use symbolserver.Memdb.Stash.State.{World, M, pure, lift}
use symbolserver.Memdb.Stash.Queries.{get_memdb}
use symbolserver.Memdb.Stash.Fuzzy.{fuzzy_match_sdk_id}
use symbolserver.Api.Binding.{BindOptions, use_config, bind_to_addr, bind_to_fd}
pub mod Converted

-- The options of `convert-sdk`.
pub record ConvertMatches : Type 0 where
  pub default_location : Bool
  pub path : Option (List Str)
  pub compress : Bool
  pub share_to : Option Str
  pub output_path : Option Str

-- An entry of the folder of the default SDKs: its metadata, and that of its `Info.plist`.
pub record FolderEntry : Type 0 where
  pub path : Str
  pub is_dir : Result Bool
  pub plist_is_file : Result Bool

-- What the default location is and holds, and the directory for what is shared.
pub record Places : Type 0 where
  pub home_dir : Option Str
  pub read_dir : Str → Result (List (Result FolderEntry))
  pub temp_dir : Result Str

-- An SDK is a folder with a file `Info.plist`.
unfoldable pub is_sdk_folder : FolderEntry → Result Bool
is_sdk_folder entry = do
  dir ← entry.is_dir
  ok (elim entry.plist_is_file [
    | ok file ↦ dir && file
    | err e ↦ false
    | panic ↦ false
    | undefined ↦ false
  ])

-- The loop of `get_default_sdks`.
unfoldable pub sdk_folders : List (Result FolderEntry) → Result (List Str)
sdk_folders [] = ok []
sdk_folders (entry_rv ∷ rest) = do
  entry ← entry_rv
  found ← is_sdk_folder entry
  paths ← sdk_folders rest
  ok (if found then entry.path ∷ paths else paths)

unfoldable pub get_default_sdks : (Str → Str → Str) → Places → Result (List Str)
get_default_sdks join places = do
  home ← option_result (msg (codes "Could not find home folder")) places.home_dir
  entries ← elim (places.read_dir (join home (codes "Library/Developer/Xcode/iOS DeviceSupport"))) [
    | ok entries ↦ ok entries
    | err e ↦ err (msg (codes "Could not find iOS DeviceSupport"))
    | panic ↦ panic
    | undefined ↦ undefined
  ]
  sdk_folders entries

module _ (lib : MachObject) (xz : Bytes → Bytes) (fs : FileSystem)
    (create : Str → Result (Unit {0})) (post : Str → Str → Bytes → Result (Unit {0})) where
  -- `share_sdk`: the request is built and sent by the crates multipart and hyper.
  unfoldable pub share_sdk : Bytes → Str → SdkInfo → Result (Unit {0})
  share_sdk bytes url info = post url (sdk_id info) bytes

  -- The body of the loop of `convert_sdk_action`: the file that it writes, by its name in the
  -- output directory.
  unfoldable pub convert_sdk : Bool → Option Str → Str → Result (Str × Bytes)
  convert_sdk compress share_to path = do
    info ← sdk_new path
    let dst : Str =
        if compress
        then set_extension (memdb_filename info) (codes "memdbz")
        else memdb_filename info
    create dst
    bytes ← sdk_dump_memdb lib xz fs (record { path = path; info = info }) compress
    elim share_to [ none ↦ ok tt | some url ↦ share_sdk bytes url info ]
    ok (dst, bytes)

  -- `convert_sdk_action`; the first error ends it.
  unfoldable pub convert_sdk_action : List Str → Bool → Option Str → Result (List (Str × Bytes))
  convert_sdk_action [] compress share_to = ok []
  convert_sdk_action (path ∷ paths) compress share_to = do
    file ← convert_sdk compress share_to path
    files ← convert_sdk_action paths compress share_to
    ok (file ∷ files)

  -- The command `convert-sdk` of `execute`: what is shared is compressed. The answer is the output
  -- directory with the files.
  unfoldable pub convert_command :
      (Str → Str → Str) → Places → ConvertMatches → Result (Str × List (Str × Bytes))
  convert_command join places matches = do
    paths ←
        if matches.default_location
        then get_default_sdks join places
        else option_result (msg (codes "No paths provided")) matches.path
    elim matches.share_to [
      | some value ↦ (do
        tempdir ← places.temp_dir
        files ← convert_sdk_action paths true (some value)
        ok (tempdir, files))
      | none ↦ (do
        files ← convert_sdk_action paths matches.compress none
        ok (elim matches.output_path [ some path ↦ path | none ↦ codes "." ], files))
    ]

-- The lines of a dump of an object, up to the first error.
unfoldable pub dump_items : List (Result Symbol) → Result (List (ℕ × Str))
dump_items [] = ok []
dump_items (item_rv ∷ rest) = do
  item ← item_rv
  lines ← dump_items rest
  ok ((item.addr, item.symbol) ∷ lines)

-- `dump_object_action`, behind the opening of the stash.
unfoldable pub dump_object_action : (Str → Option Uuid) → Str → Str → M (List (ℕ × Str))
dump_object_action parse_uuid id name_or_uuid =
    symbolserver.Memdb.Stash.State.◌>>=◌
      (lift (option_result (msg (codes "Invalid SDK ID")) (from_filename id)))
      (λ info. symbolserver.Memdb.Stash.State.◌>>=◌ (get_memdb info) (λ memdb. lift (do
        found ← find_uuid_fuzzy memdb parse_uuid name_or_uuid
        uuid ← option_result (msg (codes "Object not found in SDK")) found
        items ← iter_symbols memdb uuid
        dump_items items)))

-- `sdk_fuzzy_match_action`, the ids that are printed.
unfoldable pub sdk_fuzzy_match_action : Str → M (List Str)
sdk_fuzzy_match_action id =
    symbolserver.Memdb.Stash.State.◌>>=◌ (fuzzy_match_sdk_id id) (λ infos. pure (map sdk_id infos))

-- The options of `run`.
pub record RunMatches : Type 0 where
  pub disable_sync : Bool
  pub bind : Option Str
  pub bind_fd : Option Str
  pub threads : Option Str

-- `parse` at `i32`.
unfoldable pub parse_i32 : Str → Option ℤ
parse_i32 [] = none
parse_i32 (c ∷ s) =
    if c == b'-'
    then (elim (read_nonempty 10 (2 ^ 31 + 1) s) [
      | none ↦ none
      | some n ↦ some (if n == 0 then pos 0 else negsuc (n - 1))
    ])
    else (elim (from_str_radix 10 (2 ^ 31) (c ∷ s)) [ none ↦ none | some n ↦ some (pos n) ])

-- The address has precedence over the descriptor.
unfoldable pub bind_options : RunMatches → Result BindOptions
bind_options matches = elim matches.bind [
  | some addr ↦ ok (bind_to_addr addr)
  | none ↦ elim matches.bind_fd [
    | some fd ↦ (do
      n ← option_result (msg (codes "invalid value for file descriptor")) (parse_i32 fd)
      ok (bind_to_fd n))
    | none ↦ ok use_config
  ]
]

-- `run_action`, up to `run`: whether the server syncs, its threads, and what it listens on.
unfoldable pub run_action :
    {Region Level Duration : Type 0}
    → Outside Region Level Duration
    → Config
    → RunMatches
    → Result (Bool × (ℕ × BindOptions))
run_action out config matches = do
  threads ← elim matches.threads [
    | some threads ↦
        option_result (msg (codes "invalid value for threads")) (from_str_radix 10 (2 ^ 64) threads)
    | none ↦ get_server_threads out config
  ]
  opts ← bind_options matches
  ok (if matches.disable_sync then false else true, (threads, opts))
