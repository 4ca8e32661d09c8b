-- ===== src/Tests/Saving.antt =====
-- A state file that is written in two pieces, and one that is not.
use symbolserver.Prelude.{◌≡◌, ◌≤◌, refl, some, [], ◌∷◌, length, take}
use symbolserver.Prelude.Order.{nat_ord, list_ord}
use symbolserver.Prelude.Map
use symbolserver.Errors.{ok, io, IoKind}
use symbolserver.Text.Paths.{before_dot, set_extension}
use symbolserver.Memdb.Stash.Saving.{
  Directory, done, failed, append_to, apply_op, fail_op, run_ops, write_ops, save_ops,
  sync_state_filename, save_state,
}
use symbolserver.Memdb.Stash.Saving.Atomic.{IsAtomic, contents, save_ops-IsAtomic}

abbrev dir : Directory
dir = (sync_state_filename, 1 ∷ []) ∷ []

state_written :
    save_state done ((2 ∷ [], done) ∷ (3 ∷ [], done) ∷ []) done dir
    ≡ (ok tt, (sync_state_filename, 2 ∷ 3 ∷ []) ∷ [])
unfolding save_state save_ops write_ops run_ops apply_op append_to set_extension before_dot Map.get
    Map.insert Map.remove
state_written = refl

state_kept :
    Map.get sync_state_filename
      (save_state done ((2 ∷ [], done) ∷ (3 ∷ [], failed (io IoKind.other) []) ∷ []) done dir).1
    ≡ some (1 ∷ [])
unfolding save_state save_ops write_ops run_ops apply_op fail_op append_to set_extension before_dot
    Map.get Map.insert Map.remove
state_kept = refl

save_ops-IsAtomic_example :
    IsAtomic sync_state_filename
      (Map.get sync_state_filename dir)
      (contents ((2 ∷ [], done) ∷ (3 ∷ [], done) ∷ []))
      (length (save_ops sync_state_filename done ((2 ∷ [], done) ∷ (3 ∷ [], done) ∷ []) done) ≤ 3)
      (run_ops
        (take 3 (save_ops sync_state_filename done ((2 ∷ [], done) ∷ (3 ∷ [], done) ∷ []) done))
        dir)
save_ops-IsAtomic_example = save_ops-IsAtomic done ((2 ∷ [], done) ∷ (3 ∷ [], done) ∷ []) done 3 dir
