-- ===== src/Text/Paths.antt =====
-- File names, as the methods of `Path` that src/cli.rs and src/memdb/stash.rs call change them.
use symbolserver.Prelude.{◌==◌, if◌then◌else◌, Option, none, some, [], ◌∷◌, ◌++◌}
use symbolserver.Prelude.Order.{◌=?◌, nat_ord, list_ord}
use symbolserver.Errors.{Str}

-- `Path::set_extension` of one file name, which is what stands before the last dot, unless that is
-- nothing, and the new extension.
unfoldable pub before_dot : Str → Option Str
before_dot [] = none
before_dot (c ∷ s) = elim (before_dot s) [
  | some stem ↦ some (c ∷ stem)
  | none ↦ if c == b'.' then some [] else none
]

unfoldable pub set_extension : Str → Str → Str
unfolding before_dot
set_extension name extension = elim (before_dot name) [
  | none ↦ name ++ b'.' ∷ extension
  | some stem ↦ if stem =? [] then name ++ b'.' ∷ extension else stem ++ b'.' ∷ extension
]
