-- ===== src/Memdb/Stash/Sound.antt =====
-- src/memdb/stash.rs: what every call of the stash keeps, whatever S3 and the disk answer: the
-- stored state is keyed by file names, and the state in memory is the stored one.
use symbolserver.Prelude.{◌≡◌, refl, ◌∙◌}
use symbolserver.Prelude.{Option, none, some, Option-cases, inl, inr}
use symbolserver.Errors.{Result, ok, err, panic, undefined, msg}
use symbolserver.Text.{codes}
use symbolserver.Sdk.{sdk_ord}
use symbolserver.Memdb.Stash.State.{
  SdkSyncState, default_state, StateFile, World, M, after, pure, lift,
}
use symbolserver.Memdb.Stash.Sync.{read_local_state, get_local_state}
use symbolserver.Memdb.Stash.Keyed.{IsKeyed}

-- The state that reading the file gives.
abbrev pub stored : StateFile → Option SdkSyncState
stored StateFile.missing = some default_state
stored StateFile.unreadable = none
stored StateFile.malformed = none
stored (StateFile.saved s) = some s

pub record IsSound (w : World) : Type 0 where
  pub keyed : (s : SdkSyncState) → stored w.state_file ≡ some s → IsKeyed s.sdks
  pub coherent : (s : SdkSyncState) → w.local_state ≡ some s → stored w.state_file ≡ some s

-- What a call that returned says of its value.
abbrev pub Returns : {A : Type 0} → (A → World → Type 0) → Result A × World → Type 0
Returns Q (ok a, w) = Q a w
Returns Q (err e, w) = Unit
Returns Q (panic, w) = Unit
Returns Q (undefined, w) = Unit

pub record Safe {A : Type 0} (Q : A → World → Type 0) (out : Result A × World) : Type 0 where
  pub sound : IsSound out.1
  pub returns : Returns Q out

abbrev pub Any : {A : Type 0} → A → World → Type 0
Any a w = Unit

-- A value that is a keyed state.
abbrev pub Held : SdkSyncState → World → Type 0
Held local w = IsKeyed local.sdks

-- The state file is the one of an earlier world.
abbrev pub Same : {A : Type 0} → World → A → World → Type 0
Same w₀ a w = w.state_file ≡ w₀.state_file

module _ {A : Type 0} (Q : A → World → Type 0) where
  pub pure-Safe : (a : A) (w : World) → IsSound w → Q a w → Safe Q (pure a w)
  pure-Safe a w h q = record { sound = h; returns = q }

  pub lift-Safe :
      (r : Result A) (w : World) → IsSound w → ((a : A) → r ≡ ok a → Q a w) → Safe Q (lift r w)
  lift-Safe (ok a) w h q = record { sound = h; returns = q a refl }
  lift-Safe (err e) w h q = record { sound = h; returns = tt }
  lift-Safe panic w h q = record { sound = h; returns = tt }
  lift-Safe undefined w h q = record { sound = h; returns = tt }

-- A step and what follows it.
pub after-Safe :
    {A B : Type 0} {Q : A → World → Type 0} {R : B → World → Type 0} (f : A → M B)
    (out : Result A × World)
    → Safe Q out
    → ((a : A) (w : World) → IsSound w → Q a w → Safe R (f a w))
    → Safe R (after f out)
after-Safe f (ok a, w) h k = k a w h.sound h.returns
after-Safe f (err e, w) h k = record { sound = h.sound; returns = tt }
after-Safe f (panic, w) h k = record { sound = h.sound; returns = tt }
after-Safe f (undefined, w) h k = record { sound = h.sound; returns = tt }

pub weaken-Safe :
    {A : Type 0} {Q R : A → World → Type 0} (out : Result A × World)
    → Safe Q out
    → ((a : A) (w : World) → Q a w → R a w)
    → Safe R out
weaken-Safe (ok a, w) h k = record { sound = h.sound; returns = k a w h.returns }
weaken-Safe (err e, w) h k = record { sound = h.sound; returns = tt }
weaken-Safe (panic, w) h k = record { sound = h.sound; returns = tt }
weaken-Safe (undefined, w) h k = record { sound = h.sound; returns = tt }

loaded-Safe :
    (w : World) (s : SdkSyncState)
    → IsSound w
    → stored w.state_file ≡ some s
    → Safe Held (ok s, record w { local_state = some s })
loaded-Safe w s h e = record {
  sound = record { keyed = h.keyed; coherent = λ t same. e ∙ same };
  returns = h.keyed s e;
}

pub read_local_state-Safe : (w : World) → IsSound w → Safe Held (read_local_state w)
unfolding read_local_state
read_local_state-Safe w h = by_file w.state_file refl
  where
    by_file :
        (f : StateFile)
        → w.state_file ≡ f
        → Safe Held (elim f [
          | StateFile.missing ↦ (ok default_state, record w { local_state = some default_state })
          | StateFile.unreadable ↦ (err (msg (codes "Error loading sync state")), w)
          | StateFile.malformed ↦ (err (msg (codes "Parsing error on loading sync state")), w)
          | StateFile.saved s ↦ (ok s, record w { local_state = some s })
        ])
    by_file StateFile.missing e = loaded-Safe w default_state h (rw e refl)
    by_file StateFile.unreadable e = record { sound = h; returns = tt }
    by_file StateFile.malformed e = record { sound = h; returns = tt }
    by_file (StateFile.saved s) e = loaded-Safe w s h (rw e refl)

pub get_local_state-Safe : (w : World) → IsSound w → Safe Held (get_local_state w)
unfolding get_local_state
get_local_state-Safe w h = elim (Option-cases w.local_state) [
  | inl e ↦ rw (get_local_state, e) (read_local_state-Safe w h)
  | inr (s, e) ↦
      rw (get_local_state, e) (record { sound = h; returns = h.keyed s (h.coherent s e) })
]

-- A world with the same state, in the file and in memory.
pub Same-IsSound :
    (w w' : World)
    → w'.state_file ≡ w.state_file
    → w'.local_state ≡ w.local_state
    → IsSound w
    → IsSound w'
Same-IsSound w w' e k h = record {
  keyed = λ s q. h.keyed s (rw e at q);
  coherent = λ s q. rw e (h.coherent s (rw k at q));
}
