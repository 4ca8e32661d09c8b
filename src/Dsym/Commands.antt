-- ===== src/Dsym/Commands.antt =====
-- src/dsym.rs: what the load commands of a file give its variant.
use symbolserver.Prelude.{ℕ, ◌≡◌, refl, ap, ◌∙◌}
use symbolserver.Prelude.{Bool, true, false, if◌then◌else◌}
use symbolserver.Prelude.{Option, none, some, List, [], ◌∷◌}
use symbolserver.Prelude.Order.{◌=?◌, nat_ord, list_ord}
use symbolserver.Errors.{Str}
use symbolserver.Text.{codes}
use symbolserver.Memdb.Types.{Uuid}
use symbolserver.Dsym.{
  LoadCommand, uuid_command, id_dylib, segment, segment64, other_command, MachFile, Variant,
  apply_command, apply_commands, set_segment, variant_of,
}

-- The last of the values that the commands give for something, or the one from before.
abbrev pub last_given {ℓ} : {A : Type ℓ} → (LoadCommand → Option A) → List LoadCommand → A → A
last_given f [] old = old
last_given f (c ∷ cs) old = last_given f cs (elim (f c) [ none ↦ old | some new ↦ new ])

abbrev pub given_uuid : LoadCommand → Option (Option Uuid)
given_uuid (uuid_command uuid) = some (some uuid)
given_uuid (id_dylib name) = none
given_uuid (segment name addr size) = none
given_uuid (segment64 name addr size) = none
given_uuid other_command = none

abbrev pub given_name : LoadCommand → Option (Option Str)
given_name (uuid_command uuid) = none
given_name (id_dylib name) = some (some name)
given_name (segment name addr size) = none
given_name (segment64 name addr size) = none
given_name other_command = none

abbrev pub text_range : Str → ℕ → ℕ → Option (ℕ × ℕ)
text_range name addr size = if name =? codes "__TEXT" then some (addr, size) else none

abbrev pub given_range : LoadCommand → Option (ℕ × ℕ)
given_range (uuid_command uuid) = none
given_range (id_dylib name) = none
given_range (segment name addr size) = text_range name addr size
given_range (segment64 name addr size) = text_range name addr size
given_range other_command = none

-- What the commands say of a variant.
abbrev pub told : List LoadCommand → Variant → Variant
told cs v = record {
  cputype = v.cputype;
  cpusubtype = v.cpusubtype;
  uuid = last_given given_uuid cs v.uuid;
  name = last_given given_name cs v.name;
  vmaddr = (last_given given_range cs (v.vmaddr, v.vmsize)).0;
  vmsize = (last_given given_range cs (v.vmaddr, v.vmsize)).1;
}

told_if :
    (cs : List LoadCommand) (b : Bool) (addr size : ℕ) (v : Variant)
    → told cs (if b then record v { vmaddr = addr; vmsize = size } else v) ≡ (
        let range =
          last_given given_range cs
            (elim (if◌then◌else◌ {A = Option (ℕ × ℕ)} b (some (addr, size)) none) [
              | none ↦ (v.vmaddr, v.vmsize)
              | some new ↦ new
            ]) in
        record {
          cputype = v.cputype;
          cpusubtype = v.cpusubtype;
          uuid = last_given given_uuid cs v.uuid;
          name = last_given given_name cs v.name;
          vmaddr = range.0;
          vmsize = range.1;
        })
told_if cs true addr size v = refl
told_if cs false addr size v = refl

told_segment :
    (cs : List LoadCommand) (name : Str) (addr size : ℕ) (v : Variant)
    → told cs (set_segment name addr size v) ≡ told (segment name addr size ∷ cs) v
unfolding set_segment
told_segment cs name addr size v = told_if cs (name =? codes "__TEXT") addr size v

apply_commands-told : (cs : List LoadCommand) (v : Variant) → apply_commands cs v ≡ told cs v
unfolding apply_commands apply_command
apply_commands-told [] v = refl
apply_commands-told (uuid_command uuid ∷ cs) v = apply_commands-told cs _
apply_commands-told (id_dylib name ∷ cs) v = apply_commands-told cs _
apply_commands-told (segment name addr size ∷ cs) v =
    apply_commands-told cs _ ∙ told_segment cs name addr size v
apply_commands-told (segment64 name addr size ∷ cs) v =
    apply_commands-told cs _ ∙ told_segment cs name addr size v
apply_commands-told (other_command ∷ cs) v = apply_commands-told cs v

-- The UUID of a variant is the one of the last command that has one, the name that of the last
-- dylib command, and the address and size those of the last `__TEXT` segment; without such a
-- command there is no UUID, no name, and the address and the size are 0.
pub variant_of-told :
    (file : MachFile)
    → variant_of file
      ≡ told file.commands (record {
        cputype = file.cputype;
        cpusubtype = file.cpusubtype;
        uuid = none;
        name = none;
        vmaddr = 0;
        vmsize = 0;
      })
unfolding variant_of
variant_of-told file = apply_commands-told file.commands _

apply_commands-types :
    (cs : List LoadCommand) (v : Variant)
    → ((apply_commands cs v).cputype ≡ v.cputype)
      × ((apply_commands cs v).cpusubtype ≡ v.cpusubtype)
apply_commands-types cs v = (
  ap (λ (w : Variant). w.cputype) (apply_commands-told cs v),
  ap (λ (w : Variant). w.cpusubtype) (apply_commands-told cs v),
)

pub variant_of-types :
    (file : MachFile)
    → ((variant_of file).cputype ≡ file.cputype) × ((variant_of file).cpusubtype ≡ file.cpusubtype)
unfolding variant_of
variant_of-types file = apply_commands-types file.commands _
