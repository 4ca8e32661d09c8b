-- ===== src/Tests/Dsym.antt =====
-- A fat file of two architectures.
use symbolserver.Prelude.{ℕ, ◌≡◌, refl, arith, none, some, List, [], ◌∷◌, replicate, All}
use symbolserver.Errors.{ok}
use symbolserver.Bytes.{Bytes}
use symbolserver.Text.{codes}
use symbolserver.Dsym.{
  uuid_command, id_dylib, segment64, other_command, MachFile, Member, mach, not_mach, FatArch,
  fat_file, MachObject, Variant, Object, from_backing, arch, symbols, extract_file, extract_members,
  extract_variant, variant_of, apply_commands, apply_command, set_segment,
}
use symbolserver.Dsym.Commands.{told, variant_of-told}
use symbolserver.Dsym.Laws.{IsConsistent, Gives, symbols-variant}

abbrev image : ℕ → MachFile
image kind = record {
  cputype = kind;
  cpusubtype = 3;
  commands =
      uuid_command (replicate 16 kind)
      ∷ other_command
      ∷ segment64 (codes "__TEXT") 4096 64
      ∷ segment64 (codes "__DATA") 8192 32
      ∷ id_dylib (codes "/usr/lib/libz.dylib")
      ∷ [];
}

abbrev files : List (FatArch × Member)
files =
    (record { cputype = 7; cpusubtype = 3; offset = 0 }, mach (image 7))
    ∷ (record { cputype = 9; cpusubtype = 1; offset = 1 }, not_mach)
    ∷ (record { cputype = 12; cpusubtype = 3; offset = 2 }, mach (image 12))
    ∷ []

abbrev lib : MachObject
lib = record {
  parse = λ bs. ok (fat_file files);
  symbol_table = λ m bs. none;
  arch_name = λ a b. some (a ∷ b ∷ []);
  arch_types =
      λ name. elim name [ a ∷ rest ↦ elim rest [ b ∷ more ↦ some (a, b) | [] ↦ none ] | [] ↦ none ];
}

abbrev backing : Bytes
backing = 1 ∷ 2 ∷ 3 ∷ []

abbrev var : ℕ → Variant
var kind = record {
  cputype = kind;
  cpusubtype = 3;
  uuid = some (replicate 16 kind);
  name = some (codes "/usr/lib/libz.dylib");
  vmaddr = 4096;
  vmsize = 64;
}

abbrev object : Object
object = record { backing = backing; ofile = fat_file files; variants = var 7 ∷ var 12 ∷ [] }

object_read : from_backing lib backing ≡ ok object
unfolding from_backing extract_file extract_members extract_variant variant_of apply_commands
    apply_command set_segment
object_read = refl

agree : All (IsConsistent backing) files
agree = (
  record {
    inside = omega arith;
    agrees = λ file e. let same : image 7 ≡ file = cc e in rw (← same) (refl, refl);
  },
  (
    record { inside = omega arith; agrees = λ file e. absurd (cc e) },
    (
      record {
        inside = omega arith;
        agrees = λ file e. let same : image 12 ≡ file = cc e in rw (← same) (refl, refl);
      },
      tt,
    ),
  ),
)

types_known : lib.arch_types (arch lib 12 3) ≡ some (12, 3)
unfolding arch
types_known = refl

symbols-variant_example : Gives backing object.ofile (12, 3) (symbols lib object (arch lib 12 3))
symbols-variant_example =
    symbols-variant lib backing object 1 (var 12) object_read agree refl types_known

variant_of-told_example :
    variant_of (image 7)
    ≡ told
        (image 7).commands
        (record { cputype = 7; cpusubtype = 3; uuid = none; name = none; vmaddr = 0; vmsize = 0 })
variant_of-told_example = variant_of-told (image 7)
