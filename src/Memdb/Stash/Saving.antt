-- ===== src/Memdb/Stash/Saving.antt =====
-- src/memdb/stash.rs: `save_state` as the single operations on the directory of the stash, any of
-- which may fail, and behind any of which the process may be killed.
use symbolserver.Prelude.{ℕ, zero, suc, Option, none, some, List, [], ◌∷◌, ◌++◌, map}
use symbolserver.Prelude.Order.{nat_ord, list_ord}
use symbolserver.Prelude.Map
use symbolserver.Prelude.Map.{Map}
use symbolserver.Errors.{Str, Result, ok, err, ErrorKind, msg}
use symbolserver.Bytes.{Bytes}
use symbolserver.Text.{codes}
use symbolserver.Text.Paths.{set_extension}
pub mod Atomic

-- The files of the directory, by their names.
abbrev pub Directory : Type 0
Directory = Map Str Bytes

pub data FileOp : Type 0 where
  create_file : Str → FileOp
  append : Str → Bytes → FileOp
  rename : Str → Str → FileOp

-- What the system makes of an operation: it is done, or it fails; of a write, a part may reach the
-- file all the same.
pub data Attempt : Type 0 where
  done : Attempt
  failed : ErrorKind → Bytes → Attempt

unfoldable pub append_to : Str → Bytes → Directory → Directory
append_to name bytes dir = elim (Map.get name dir) [
  | none ↦ dir
  | some old ↦ Map.insert name (old ++ bytes) dir
]

-- A file that is renamed takes the place of another at once.
unfoldable pub apply_op : FileOp → Directory → Directory
apply_op (create_file name) dir = Map.insert name [] dir
apply_op (append name bytes) dir = append_to name bytes dir
apply_op (rename old new) dir = elim (Map.get old dir) [
  | none ↦ dir
  | some bytes ↦ Map.insert new bytes (Map.remove old dir)
]

-- The error of a write is the one that `chain_err` makes.
unfoldable pub fail_op : FileOp → ErrorKind → Bytes → Directory → Result (Unit {0}) × Directory
fail_op (create_file name) e part dir = (err e, dir)
fail_op (append name bytes) e part dir =
    (err (msg (codes "Could not update sync state")), append_to name part dir)
fail_op (rename old new) e part dir = (err e, dir)

-- The first failure ends the call.
unfoldable pub run_ops : List (FileOp × Attempt) → Directory → Result (Unit {0}) × Directory
run_ops [] dir = (ok tt, dir)
run_ops ((op, done) ∷ rest) dir = run_ops rest (apply_op op dir)
run_ops ((op, failed e part) ∷ rest) dir = fail_op op e part dir

-- The writes of `serde_json::to_writer`, in pieces, and the renaming.
unfoldable pub write_ops : Str → Str → List (Bytes × Attempt) → Attempt → List (FileOp × Attempt)
write_ops tmp_filename filename [] renaming = (rename tmp_filename filename, renaming) ∷ []
write_ops tmp_filename filename ((bytes, a) ∷ pieces) renaming =
    (append tmp_filename bytes, a) ∷ write_ops tmp_filename filename pieces renaming

-- `save_state`, with what the system makes of each operation.
unfoldable pub save_ops : Str → Attempt → List (Bytes × Attempt) → Attempt → List (FileOp × Attempt)
save_ops filename creating pieces renaming =
    let tmp_filename = set_extension filename (codes "tempstate") in
    (create_file tmp_filename, creating) ∷ write_ops tmp_filename filename pieces renaming

-- `get_local_sync_state_filename`, in the directory of the stash.
abbrev pub sync_state_filename : Str
sync_state_filename = codes "sync.state"

unfoldable pub save_state :
    Attempt → List (Bytes × Attempt) → Attempt → Directory → Result (Unit {0}) × Directory
save_state creating pieces renaming =
    run_ops (save_ops sync_state_filename creating pieces renaming)
