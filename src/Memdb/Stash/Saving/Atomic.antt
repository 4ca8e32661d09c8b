-- ===== src/Memdb/Stash/Saving/Atomic.antt =====
-- src/memdb/stash.rs: the state file is always the old one or the whole new one.
use symbolserver.Prelude.{ℕ, zero, suc, ◌≤◌, ◌≡◌, refl, sym, ap, ◌∙◌, arith, ◌⊎◌, inl, inr, false}
use symbolserver.Prelude.{Option, some, Option-cases, List, [], ◌∷◌, ◌++◌, length, take}
use symbolserver.Prelude.Order.{◌=?◌, =?_refl, nat_ord, list_ord}
use symbolserver.Prelude.Map
use symbolserver.Prelude.Map.{Map}
use mathlib.Core.List.{append_assoc, append-nil}
use symbolserver.Errors.{Str, Result, ok}
use symbolserver.Bytes.{Bytes}
use symbolserver.Text.{codes}
use symbolserver.Text.Paths.{set_extension}
use symbolserver.Memdb.Stash.Saving.{
  Directory, FileOp, create_file, rename, Attempt, done, failed, append_to, apply_op, fail_op,
  run_ops, write_ops, save_ops, sync_state_filename,
}

-- All that is written.
abbrev pub contents : List (Bytes × Attempt) → Bytes
contents [] = []
contents ((bytes, a) ∷ pieces) = bytes ++ contents pieces

-- A file is as it was, or the call returned and it is the new one; and it is the new one if the
-- call came to its end.
pub record IsAtomic (filename : Str) (old : Option Bytes) (new : Bytes) (complete : Type 0)
    (out : Result (Unit {0}) × Directory) : Type 0 where
  pub old_or_new :
      (Map.get filename out.1 ≡ old) ⊎ ((out.0 ≡ ok tt) × (Map.get filename out.1 ≡ some new))
  pub returns_new : complete → out.0 ≡ ok tt → Map.get filename out.1 ≡ some new

take-nil : {A : Type 0} (n : ℕ) → take {A = A} n [] ≡ []
take-nil zero = refl
take-nil (suc n) = refl

module _ (tmp filename : Str) (other : (tmp =? filename) ≡ false) where
  get-append_to :
      (bytes : Bytes) (dir : Directory)
      → Map.get filename (append_to tmp bytes dir) ≡ Map.get filename dir
  unfolding append_to
  get-append_to bytes dir = elim (Option-cases (Map.get tmp dir)) [
    | inl e ↦ rw (append_to, e) refl
    | inr (old, e) ↦
        rw (append_to, e) (Map.get-insert filename tmp (old ++ bytes) dir ∙ rw other refl)
  ]

  append_to-tmp :
      (acc bytes : Bytes) (dir : Directory)
      → Map.get tmp dir ≡ some acc
      → Map.get tmp (append_to tmp bytes dir) ≡ some (acc ++ bytes)
  unfolding append_to
  append_to-tmp acc bytes dir e =
      rw (append_to, e) (Map.get-insert tmp tmp (acc ++ bytes) dir ∙ rw (=?_refl tmp) refl)

  renamed :
      (acc : Bytes) (dir : Directory)
      → Map.get tmp dir ≡ some acc
      → Map.get filename (apply_op (rename tmp filename) dir) ≡ some acc
  unfolding apply_op
  renamed acc dir e =
      rw (apply_op, e)
        (Map.get-insert filename filename acc (Map.remove tmp dir) ∙ rw (=?_refl filename) refl)

  write_ops-IsAtomic :
      (pieces : List (Bytes × Attempt)) (renaming : Attempt) (n : ℕ) (acc : Bytes) (dir : Directory)
      (old : Option Bytes)
      → Map.get tmp dir ≡ some acc
      → Map.get filename dir ≡ old
      → IsAtomic filename old
          (acc ++ contents pieces)
          (length (write_ops tmp filename pieces renaming) ≤ n)
          (run_ops (take n (write_ops tmp filename pieces renaming)) dir)
  unfolding write_ops run_ops fail_op apply_op
  write_ops-IsAtomic [] renaming zero acc dir old e k = record {
    old_or_new = inl k;
    returns_new = λ c r. absurd (omega (arith, c));
  }
  write_ops-IsAtomic [] done (suc n) acc dir old e k =
      let new : Map.get filename (apply_op (rename tmp filename) dir) ≡ some (acc ++ []) =
        renamed acc dir e ∙ ap some (sym (append-nil acc)) in
      rw (take-nil n) (record { old_or_new = inr (refl, new); returns_new = λ c r. new })
  write_ops-IsAtomic [] (failed x part) (suc n) acc dir old e k = record {
    old_or_new = inl k;
    returns_new = λ c r. absurd (cc r);
  }
  write_ops-IsAtomic ((bytes, a) ∷ pieces) renaming zero acc dir old e k = record {
    old_or_new = inl k;
    returns_new = λ c r. absurd (omega (arith, c));
  }
  write_ops-IsAtomic ((bytes, failed x part) ∷ pieces) renaming (suc n) acc dir old e k = record {
    old_or_new = inl (get-append_to part dir ∙ k);
    returns_new = λ c r. absurd (cc r);
  }
  write_ops-IsAtomic ((bytes, done) ∷ pieces) renaming (suc n) acc dir old e k =
      let ih =
        write_ops-IsAtomic pieces renaming n (acc ++ bytes) (append_to tmp bytes dir) old
          (append_to-tmp acc bytes dir e) (get-append_to bytes dir ∙ k) in
      rw (← append_assoc acc bytes (contents pieces)) (record {
        old_or_new = ih.old_or_new;
        returns_new = λ c r. ih.returns_new (omega (arith, c)) r;
      })

  save_steps-IsAtomic :
      (creating : Attempt) (pieces : List (Bytes × Attempt)) (renaming : Attempt) (n : ℕ)
      (dir : Directory)
      → let ops : List (FileOp × Attempt) =
          (create_file tmp, creating) ∷ write_ops tmp filename pieces renaming in
        IsAtomic filename
          (Map.get filename dir)
          (contents pieces)
          (length ops ≤ n)
          (run_ops (take n ops) dir)
  unfolding run_ops fail_op apply_op
  save_steps-IsAtomic creating pieces renaming zero dir = record {
    old_or_new = inl refl;
    returns_new = λ c r. absurd (omega (arith, c));
  }
  save_steps-IsAtomic (failed x part) pieces renaming (suc n) dir = record {
    old_or_new = inl refl;
    returns_new = λ c r. absurd (cc r);
  }
  save_steps-IsAtomic done pieces renaming (suc n) dir =
      let ih =
        write_ops-IsAtomic pieces renaming n [] (Map.insert tmp [] dir) (Map.get filename dir)
          (Map.get-insert tmp tmp [] dir ∙ rw (=?_refl tmp) refl)
          (Map.get-insert filename tmp [] dir ∙ rw other refl) in
      record {
        old_or_new = ih.old_or_new;
        returns_new = λ c r. ih.returns_new (omega (arith, c)) r;
      }

-- Whatever operations of `save_state` fail, and behind however many of them the process is killed,
-- the state file has its old contents, or the call has returned and it has the new contents as a
-- whole; and when a call that is not killed succeeds, it has the new contents.
pub save_ops-IsAtomic :
    (creating : Attempt) (pieces : List (Bytes × Attempt)) (renaming : Attempt) (n : ℕ)
    (dir : Directory)
    → IsAtomic sync_state_filename
        (Map.get sync_state_filename dir)
        (contents pieces)
        (length (save_ops sync_state_filename creating pieces renaming) ≤ n)
        (run_ops (take n (save_ops sync_state_filename creating pieces renaming)) dir)
unfolding save_ops set_extension
save_ops-IsAtomic creating pieces renaming n dir =
    save_steps-IsAtomic (codes "sync.tempstate") sync_state_filename refl creating pieces renaming n
      dir
