-- ===== src/Cli/Converted.antt =====
-- src/cli.rs: the files that `convert-sdk` writes, and what they are called.
use symbolserver.Prelude.{◌≡◌, ◌≢◌, refl, sym, ap, ◌∙◌, Bool, false, inl, inr}
use symbolserver.Prelude.{Option, none, some, List, [], ◌∷◌, ◌++◌, Bool-cases, Option-cases}
use symbolserver.Prelude.{if◌then◌else◌}
use symbolserver.Prelude.Order.{◌=?◌, nat_ord, list_ord}
use symbolserver.Errors.{Str, Result, ok, err, unknown_sdk}
use symbolserver.Errors.Laws.{>>=-middle}
use symbolserver.Bytes.{Bytes}
use symbolserver.Text.{codes}
use symbolserver.Sdk.{SdkInfo, memdb_filename, make_id}
use symbolserver.Sdk.Names.{make_id-append, make_id-nonempty}
use symbolserver.Sdk.Filename.{sdk_new, from_path, from_filename, ends_memdb}
use symbolserver.Sdk.Filename.Nameable.{from_filename-from_path}
use symbolserver.Sdk.Objects.{FileSystem, sdk_dump_memdb}
use symbolserver.Dsym.{MachObject}
use symbolserver.Text.Paths.{before_dot, set_extension}
use symbolserver.Cli.{share_sdk, convert_sdk, convert_sdk_action}

before_dot-append : (s : Str) → before_dot (s ++ codes ".memdb") ≡ some s
unfolding before_dot
before_dot-append [] = refl
before_dot-append (c ∷ s) = rw (before_dot-append s) refl

nonempty_lem : (s : Str) → s ≢ [] → (s =? []) ≡ false
nonempty_lem [] n = absurd (n refl)
nonempty_lem (c ∷ s) n = refl

set_extension-append :
    (s extension : Str)
    → s ≢ []
    → set_extension (s ++ codes ".memdb") extension ≡ s ++ b'.' ∷ extension
unfolding set_extension
set_extension-append s extension n = rw (set_extension, before_dot-append s, nonempty_lem s n) refl

-- The extension of the name of a memdb file is replaced.
set_extension-memdb_filename :
    (i : SdkInfo) → set_extension (memdb_filename i) (codes "memdbz") ≡ make_id i (codes ".memdbz")
unfolding memdb_filename
set_extension-memdb_filename i =
    ap (λ n. set_extension n (codes "memdbz")) (make_id-append i (codes ".memdb"))
    ∙ (set_extension-append (make_id i []) (codes "memdbz") (make_id-nonempty i)
        ∙ sym (make_id-append i (codes ".memdbz")))

from_path-sdk_new : (path : Str) (i : SdkInfo) → sdk_new path ≡ ok i → from_path path ≡ some i
unfolding sdk_new
from_path-sdk_new path i h = elim (Option-cases (from_path path)) [
  | inl e ↦ let h' : err unknown_sdk ≡ ok i = rw (sdk_new, e) at h in absurd (cc h')
  | inr (j, e) ↦
      let h' : ok j ≡ ok i = rw (sdk_new, e) at h in let same : j ≡ i = cc h' in e ∙ ap some same
]

-- A file that was written for a path: it is the dump of the SDK of that path, and its name is
-- read as that SDK.
pub Converted :
    MachObject → (Bytes → Bytes) → FileSystem → Bool → List Str → List (Str × Bytes) → Type 0
Converted lib xz fs compress [] [] = Unit
Converted lib xz fs compress [] (f ∷ fs') = ⊥
Converted lib xz fs compress (p ∷ ps) [] = ⊥
Converted lib xz fs compress (p ∷ ps) (f ∷ files) =
    ((i : SdkInfo) × (sdk_new p ≡ ok i)
      × (from_filename f.0 ≡ some i)
      × (sdk_dump_memdb lib xz fs (record { path = p; info = i }) compress ≡ ok f.1))
    × Converted lib xz fs compress ps files

module _ (lib : MachObject) (xz : Bytes → Bytes) (fs : FileSystem)
    (create : Str → Result (Unit {0})) (post : Str → Str → Bytes → Result (Unit {0}))
    (compress : Bool) (share_to : Option Str) where
  name_read :
      (path : Str) (i : SdkInfo)
      → sdk_new path ≡ ok i
      → from_filename
          (if compress then set_extension (memdb_filename i) (codes "memdbz") else memdb_filename i)
        ≡ some i
  unfolding ends_memdb
  name_read path i h = elim (Bool-cases compress) [
    | inl on ↦
        rw (on, set_extension-memdb_filename i)
          (from_filename-from_path path (codes ".memdbz") i (from_path-sdk_new path i h) refl)
    | inr off ↦ rw off (
        unfold memdb_filename in
        from_filename-from_path path (codes ".memdb") i (from_path-sdk_new path i h) refl)
  ]

  -- When `convert-sdk` succeeds, it has written one file for each path, in their order: the dump of
  -- the SDK that the path is read as, under a name that is read as that SDK, compressed or not.
  pub convert_sdk_action-Converted :
      (paths : List Str) (files : List (Str × Bytes))
      → convert_sdk_action lib xz fs create post paths compress share_to ≡ ok files
      → Converted lib xz fs compress paths files
  unfolding convert_sdk_action convert_sdk Converted
  convert_sdk_action-Converted [] [] h = tt
  convert_sdk_action-Converted [] (f ∷ files) h = absurd (cc h)
  convert_sdk_action-Converted (p ∷ ps) files h =
      let (file, e₁, k₁) =
        >>=-middle (convert_sdk lib xz fs create post compress share_to p) _ files h in
      let (rest, e₂, k₂) =
        >>=-middle (convert_sdk_action lib xz fs create post ps compress share_to) _ files k₁ in
      let (i, read, m₁) = >>=-middle (sdk_new p) _ file e₁ in
      let dst : Str =
        if compress then set_extension (memdb_filename i) (codes "memdbz") else memdb_filename i in
      let (_, _, m₂) = >>=-middle (create dst) _ file m₁ in
      let (bytes, dumped, m₃) =
        >>=-middle (sdk_dump_memdb lib xz fs (record { path = p; info = i }) compress) _ file m₂ in
      let shared : Result (Unit {0}) = elim share_to [
        | none ↦ ok tt
        | some url ↦ share_sdk lib xz fs create post bytes url i
      ] in
      let (_, _, m₄) = >>=-middle shared _ file m₃ in
      let named : (dst, bytes) ≡ file = cc m₄ in
      let all : file ∷ rest ≡ files = cc k₂ in
      rw (← all, ← named)
        ((i, read, name_read p i read, dumped), convert_sdk_action-Converted ps rest e₂)
