-- ===== src/Dsym.antt =====
-- src/dsym.rs: the variants and the symbols of a Mach-O file. The parser of the files, the reader
-- of their symbol tables and the names of architectures belong to the crate mach_object, and are
-- the fields of `MachObject`.
use symbolserver.Prelude.{ℕ, Bool, true, false, ◌&&◌, ◌==◌, ltb, length, drop, if◌then◌else◌}
use symbolserver.Prelude.{Option, none, some, List, [], ◌∷◌, ◌++◌}
use symbolserver.Prelude.Order.{◌=?◌, nat_ord, list_ord}
use symbolserver.Errors.{
  Str, Result, ok, err, panic, ◌>>=◌, unknown_architecture, missing_architecture,
}
use symbolserver.Bytes.{Bytes}
use symbolserver.Text.{codes}
use symbolserver.Memdb.Types.{Uuid}
pub mod Commands
pub mod Laws

-- The load commands that the code looks at; an address of a 32-bit segment is widened.
pub data LoadCommand : Type 0 where
  uuid_command : Uuid → LoadCommand
  id_dylib : Str → LoadCommand
  segment : Str → ℕ → ℕ → LoadCommand
  segment64 : Str → ℕ → ℕ → LoadCommand
  other_command : LoadCommand

pub record MachFile : Type 0 where
  pub cputype : ℕ
  pub cpusubtype : ℕ
  pub commands : List LoadCommand

-- What a fat file holds: only the Mach files matter to `extract_variant`.
pub data Member : Type 0 where
  mach : MachFile → Member
  not_mach : Member

pub record FatArch : Type 0 where
  pub cputype : ℕ
  pub cpusubtype : ℕ
  pub offset : ℕ

pub data OFile : Type 0 where
  fat_file : List (FatArch × Member) → OFile
  mach_file : MachFile → OFile
  other_file : OFile

pub record Section : Type 0 where
  pub sectname : Str
  pub segname : Str

-- `mach_object::Symbol`: a defined symbol has perhaps a name, perhaps a section, and its entry.
pub data MachSymbol : Type 0 where
  defined : Option Str → Option Section → ℕ → MachSymbol
  not_defined : MachSymbol

pub record MachObject : Type 0 where
  -- `OFile::parse`
  pub parse : Bytes → Result OFile
  -- `OFile::symbols`, at the bytes from the offset of the file on.
  pub symbol_table : Member → Bytes → Option (List MachSymbol)
  -- `get_arch_name_from_types`
  pub arch_name : ℕ → ℕ → Option Str
  -- `get_arch_from_flag`
  pub arch_types : Str → Option (ℕ × ℕ)

pub record Variant : Type 0 where
  pub cputype : ℕ
  pub cpusubtype : ℕ
  pub uuid : Option Uuid
  pub name : Option Str
  pub vmaddr : ℕ
  pub vmsize : ℕ

pub record Object : Type 0 where
  pub backing : Bytes
  pub ofile : OFile
  pub variants : List Variant

pub record Symbols : Type 0 where
  pub cputype : ℕ
  pub cpusubtype : ℕ
  pub file : Member
  pub cursor : Bytes

-- The `__TEXT` segment sets the address and the size.
unfoldable pub set_segment : Str → ℕ → ℕ → Variant → Variant
set_segment segname vmaddr vmsize v =
    if segname =? codes "__TEXT" then record v { vmaddr = vmaddr; vmsize = vmsize } else v

-- The body of the loop over the load commands.
unfoldable pub apply_command : LoadCommand → Variant → Variant
unfolding set_segment
apply_command (uuid_command uuid) v = record v { uuid = some uuid }
apply_command (id_dylib name) v = record v { name = some name }
apply_command (segment segname vmaddr vmsize) v = set_segment segname vmaddr vmsize v
apply_command (segment64 segname vmaddr vmsize) v = set_segment segname vmaddr vmsize v
apply_command other_command v = v

unfoldable pub apply_commands : List LoadCommand → Variant → Variant
apply_commands [] v = v
apply_commands (c ∷ rest) v = apply_commands rest (apply_command c v)

unfoldable pub variant_of : MachFile → Variant
variant_of file = apply_commands file.commands (record {
  cputype = file.cputype;
  cpusubtype = file.cpusubtype;
  uuid = none;
  name = none;
  vmaddr = 0;
  vmsize = 0;
})

-- `extract_variant`: a file that is no Mach file adds nothing.
unfoldable pub extract_variant : List Variant → Member → List Variant
unfolding variant_of
extract_variant variants (mach file) = variants ++ variant_of file ∷ []
extract_variant variants not_mach = variants

unfoldable pub extract_members : List Variant → List (FatArch × Member) → List Variant
extract_members variants [] = variants
extract_members variants ((_, file) ∷ rest) = extract_members (extract_variant variants file) rest

unfoldable pub extract_file : OFile → List Variant
extract_file (fat_file files) = extract_members [] files
extract_file (mach_file file) = extract_variant [] (mach file)
extract_file other_file = []

-- `Backing::cursor`: the slice panics behind the end.
unfoldable pub cursor : Bytes → ℕ → Result Bytes
cursor buffer offset = if ltb (length buffer) offset then panic else ok (drop offset buffer)

-- A symbol that the iterator hands out: a defined one with a name, in the `__text` section of
-- the `__TEXT` segment.
unfoldable pub text_symbol : MachSymbol → Option (ℕ × Str)
text_symbol (defined (some name) (some sect) entry) =
    if sect.segname =? codes "__TEXT" && sect.sectname =? codes "__text"
    then some (entry, name)
    else none
text_symbol (defined (some name) none entry) = none
text_symbol (defined none sect entry) = none
text_symbol not_defined = none

-- `SymbolIterator::next`, until it ends.
unfoldable pub text_symbols : List MachSymbol → List (ℕ × Str)
text_symbols [] = []
text_symbols (s ∷ rest) =
    let found = text_symbols rest in elim (text_symbol s) [ none ↦ found | some a ↦ a ∷ found ]

module _ (lib : MachObject) where
  -- `Object::from_backing`
  unfoldable pub from_backing : Bytes → Result Object
  from_backing backing = do
    ofile ← lib.parse backing
    ok (record { backing = backing; ofile = ofile; variants = extract_file ofile })

  -- `Variant::arch`, `Symbols::arch`
  unfoldable pub arch : ℕ → ℕ → Str
  arch cputype cpusubtype = elim (lib.arch_name cputype cpusubtype) [
    | some name ↦ name
    | none ↦ codes "unknown"
  ]

  -- The loop of `Object::symbols` over the files of a fat file: the first of the architecture.
  unfoldable pub find_member : Bytes → ℕ × ℕ → List (FatArch × Member) → Option (Result Symbols)
  find_member backing types [] = none
  find_member backing types ((a, file) ∷ rest) =
      let later = find_member backing types rest in
      let found : Result Symbols = (do
        bytes ← cursor backing a.offset
        ok (record {
          cputype = a.cputype;
          cpusubtype = a.cpusubtype;
          file = file;
          cursor = bytes;
        })) in
      if a.cputype == types.0 && a.cpusubtype == types.1 then some found else later

  -- `Object::symbols`, behind the lookup of the architecture.
  unfoldable pub symbols_of_types : Object → Str → ℕ × ℕ → Result Symbols
  symbols_of_types obj name types = elim obj.ofile [
    | fat_file files ↦ elim (find_member obj.backing types files) [
      | some found ↦ found
      | none ↦ err (missing_architecture name)
    ]
    | mach_file file ↦
        if file.cputype == types.0 && file.cpusubtype == types.1
        then (do
          bytes ← cursor obj.backing 0
          ok (record {
            cputype = file.cputype;
            cpusubtype = file.cpusubtype;
            file = mach file;
            cursor = bytes;
          }))
        else err (missing_architecture name)
    | other_file ↦ err (missing_architecture name)
  ]

  -- `Object::symbols`
  unfoldable pub symbols : Object → Str → Result Symbols
  symbols obj name = elim (lib.arch_types name) [
    | none ↦ err (unknown_architecture name)
    | some types ↦ symbols_of_types obj name types
  ]

  -- `Symbols::iter`, run to its end.
  unfoldable pub iter : Symbols → List (ℕ × Str)
  iter s = elim (lib.symbol_table s.file s.cursor) [ none ↦ [] | some table ↦ text_symbols table ]
