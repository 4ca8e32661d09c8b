-- ===== src/Sdk/Names.antt =====
-- src/sdk.rs: an id with a suffix is the id and the suffix.
use symbolserver.Prelude.{◌≡◌, ◌≢◌, refl, sym, ap, ◌∙◌}
use symbolserver.Prelude.{Option, none, some, [], ◌∷◌, ◌++◌}
use mathlib.Core.List.{append_assoc, append-nil}
use symbolserver.Errors.{Str}
use symbolserver.Sdk.{SdkInfo, make_id, dotted}

dotted-append : (i : SdkInfo) (a b : Str) → dotted i (a ++ b) ≡ dotted i a ++ b
unfolding dotted
dotted-append i a b = simp append_assoc

cons-nonempty : (s t : Str) → s ++ b'_' ∷ t ≢ []
cons-nonempty [] t e = absurd (cc e)
cons-nonempty (c ∷ s) t e = absurd (cc e)

module _ (i : SdkInfo) where
  -- The id, for each case of the build.
  by_build : Option Str → Str → Str
  by_build none suffix = i.name ++ (b'_' ∷ dotted i suffix)
  by_build (some b) suffix = i.name ++ (b'_' ∷ dotted i (b'_' ∷ (b ++ suffix)))

  make_id-by_build :
      (build : Option Str) (suffix : Str)
      → i.build ≡ build
      → make_id i suffix ≡ by_build build suffix
  unfolding make_id by_build
  make_id-by_build none suffix e = rw e refl
  make_id-by_build (some b) suffix e = rw e refl

  by_build-append :
      (build : Option Str) (suffix : Str) → by_build build suffix ≡ by_build build [] ++ suffix
  unfolding by_build
  by_build-append none suffix =
      ap (λ t. i.name ++ (b'_' ∷ t)) (dotted-append i [] suffix)
      ∙ sym (append_assoc i.name (b'_' ∷ dotted i []) suffix)
  by_build-append (some b) suffix =
      ap (λ t. i.name ++ (b'_' ∷ dotted i (b'_' ∷ (t ++ suffix)))) (sym (append-nil b))
      ∙ (ap (λ t. i.name ++ (b'_' ∷ t)) (dotted-append i (b'_' ∷ (b ++ [])) suffix)
          ∙ sym (append_assoc i.name (b'_' ∷ dotted i (b'_' ∷ (b ++ []))) suffix))

  pub make_id-append : (suffix : Str) → make_id i suffix ≡ make_id i [] ++ suffix
  make_id-append suffix =
      make_id-by_build i.build suffix refl
      ∙ (by_build-append i.build suffix
          ∙ ap (λ t. t ++ suffix) (sym (make_id-by_build i.build [] refl)))

  by_build-nonempty : (build : Option Str) → by_build build [] ≢ []
  unfolding by_build
  by_build-nonempty none = cons-nonempty i.name (dotted i [])
  by_build-nonempty (some b) = cons-nonempty i.name (dotted i (b'_' ∷ (b ++ [])))

  pub make_id-nonempty : make_id i [] ≢ []
  make_id-nonempty = rw (make_id-by_build i.build [] refl) (by_build-nonempty i.build)
