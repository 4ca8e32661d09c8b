-- ===== src/Sdk/Filename.antt =====
-- src/sdk.rs: `SdkInfo::from_path`, which reads SDKs from file names, and the names of the objects
-- of an SDK. The two regular expressions are matchers by clauses: in both, only the end of the
-- name part is a choice, and the greedy `[^-]+` takes the last one that lets the rest match. A
-- `\d` beyond ASCII would match, and then fail to parse: the result is `none` as well.
pub mod Matching
pub mod RoundTrip
pub mod Captured
pub mod Nameable
use symbolserver.Prelude.{ℕ, ◌^◌, Bool, not, ◌&&◌, ◌||◌, ◌==◌, leb, if◌then◌else◌}
use symbolserver.Prelude.{Option, none, some, List, [], ◌∷◌, ◌++◌}
use symbolserver.Prelude.Order.{◌=?◌, nat_ord, list_ord}
use symbolserver.Errors.{Str, Result, ok, err, unknown_sdk}
use symbolserver.Text.{codes, from_str_radix}
use symbolserver.Sdk.{SdkInfo}

infixl 5 ◌>>=◌
abbrev pub ◌>>=◌ : {A B : Type 0} → Option A → (A → Option B) → Option B
none >>= f = none
some a >>= f = f a

abbrev pub is_digit : ℕ → Bool
is_digit c = leb b'0' c && leb c b'9'

-- `[a-zA-Z0-9]`
abbrev pub is_alnum : ℕ → Bool
is_alnum c = is_digit c || (leb b'a' c && leb c b'z') || (leb b'A' c && leb c b'Z')

-- The longest start of a text that a class matches, and the rest.
pub span : (ℕ → Bool) → Str → Str × Str
span p [] = ([], [])
span p (c ∷ s) = let (a, b) = span p s in if p c then (c ∷ a, b) else ([], c ∷ s)

-- `[..]+`
pub many : (ℕ → Bool) → Str → Option (Str × Str)
unfolding span
many p s = let (a, rest) = span p s in elim a [ [] ↦ none | c ∷ b ↦ some (c ∷ b, rest) ]

pub expect : ℕ → Str → Option Str
expect c [] = none
expect c (d ∷ s) = if d == c then some s else none

-- `(?:c([..]+))?`
pub optional : ℕ → (ℕ → Bool) → Str → Option Str × Str
unfolding many expect
optional c p s = elim (do s' ← expect c s; many p s') [
  | none ↦ (none, s)
  | some (a, rest) ↦ (some a, rest)
]

pub record Captures : Type 0 where
  pub name : Str
  pub major : Str
  pub minor : Str
  pub patchlevel : Option Str
  pub build : Option Str

-- `(\d+)\.(\d+)(?:\.(\d+))?`
pub version_captures : Str → Option ((Str × (Str × Option Str)) × Str)
unfolding many expect optional
version_captures s = do
  (major, s₁) ← many is_digit s
  s₂ ← expect b'.' s₁
  (minor, s₃) ← many is_digit s₂
  let (patchlevel, s₄) = optional b'.' is_digit s₃
  some ((major, (minor, patchlevel)), s₄)

-- `(?:\.memdbz?)?$`
unfoldable pub ends_memdb : Str → Bool
ends_memdb s = s =? [] || s =? codes ".memdb" || s =? codes ".memdbz"

-- What follows the `_` behind the name.
pub memdb_tail : Str → Str → Option Captures
unfolding version_captures optional ends_memdb
memdb_tail name s = do
  ((major, (minor, patchlevel)), s₁) ← version_captures s
  let (build, s₂) = optional b'_' is_alnum s₁
  if ends_memdb s₂
      then some (record {
        name = name;
        major = major;
        minor = minor;
        patchlevel = patchlevel;
        build = build;
      })
      else none

-- `([^-]+)_` and the tail; `name` is what has been read of the name.
pub memdb_from : Str → Str → Option Captures
unfolding memdb_tail
memdb_from name [] = none
memdb_from name (c ∷ s) =
    let later = memdb_from (name ++ c ∷ []) s in
    let here = if c == b'_' && not (name =? []) then memdb_tail name s else none in
    if c == b'-' then none else (elim later [ some m ↦ some m | none ↦ here ])

-- `MEMDB_FILENAME_RE.captures`
unfoldable pub memdb_captures : Str → Option Captures
unfolding memdb_from
memdb_captures s = memdb_from [] s

-- One `\s`: what follows a white space character of Unicode.
pub space : Str → Option Str
space [] = none
space (a ∷ []) = if a == 0x20 || (leb 0x09 a && leb a 0x0d) then some [] else none
space (a ∷ b ∷ []) =
    if a == 0x20 || (leb 0x09 a && leb a 0x0d)
    then some (b ∷ [])
    else if a == 0xc2 && (b == 0x85 || b == 0xa0)
    then some []
    else none
space (a ∷ b ∷ c ∷ s) =
    if a == 0x20 || (leb 0x09 a && leb a 0x0d)
    then some (b ∷ c ∷ s)
    else if a == 0xc2 && (b == 0x85 || b == 0xa0)
    then some (c ∷ s)
    else if (a == 0xe1 && b == 0x9a && c == 0x80)
        || (a == 0xe2
            && b == 0x80
            && ((leb 0x80 c && leb c 0x8a) || c == 0xa8 || c == 0xa9 || c == 0xaf))
        || (a == 0xe2 && b == 0x81 && c == 0x9f)
        || (a == 0xe3 && b == 0x80 && c == 0x80)
    then some s
    else none

-- `\s*`; the length of the text is fuel enough.
pub spaces : List ℕ → Str → Str
unfolding space
spaces [] s = s
spaces (_ ∷ fuel) s = elim (space s) [ none ↦ s | some rest ↦ spaces fuel rest ]

-- `SDK_FILENAME_RE.captures`
unfoldable pub sdk_captures : Str → Str → Option Captures
unfolding version_captures space spaces expect many
sdk_captures name s = do
  ((major, (minor, patchlevel)), s₁) ← version_captures s
  s₂ ← space s₁
  s₃ ← expect b'(' (spaces s₂ s₂)
  (build, s₄) ← many is_alnum s₃
  s₅ ← expect b')' s₄
  if s₅ =? [] || s₅ =? codes ".zip"
      then some (record {
        name = name;
        major = major;
        minor = minor;
        patchlevel = patchlevel;
        build = some build;
      })
      else none

unfoldable pub get_sdk_name_from_folder : Str → Option Str
get_sdk_name_from_folder folder =
    if folder =? codes "iOS DeviceSupport"
    then some (codes "iOS")
    else if folder =? codes "tvOS DeviceSupport"
    then some (codes "tvOS")
    else none

pub parse_u32 : Str → Option ℕ
unfolding from_str_radix
parse_u32 s = from_str_radix 10 (2 ^ 32) s

-- The calls of `parse`, and the result.
pub sdk_of : Captures → Option SdkInfo
unfolding parse_u32
sdk_of caps = do
  major ← parse_u32 caps.major
  minor ← parse_u32 caps.minor
  patchlevel ← parse_u32 (elim caps.patchlevel [ none ↦ codes "0" | some p ↦ p ])
  some (record {
    name = caps.name;
    version_major = major;
    version_minor = minor;
    version_patchlevel = patchlevel;
    build = caps.build;
  })

unfoldable pub split_on : ℕ → Str → List Str
split_on c [] = [] ∷ []
split_on c (x ∷ s) = elim (split_on c s) [
  | [] ↦ []
  | part ∷ rest ↦ if x == c then [] ∷ part ∷ rest else (x ∷ part) ∷ rest
]

-- `Path::components` drops the empty parts, and each `.` that is not the first part.
unfoldable pub normal : List Str → List Str
normal [] = []
normal (p ∷ rest) = let kept = normal rest in if p =? [] || p =? codes "." then kept else p ∷ kept

-- The components of a path, the last one first.
unfoldable pub reverse_onto : List Str → List Str → List Str
reverse_onto acc [] = acc
reverse_onto acc (p ∷ rest) = reverse_onto (p ∷ acc) rest

unfoldable pub components : Str → List Str
unfolding split_on normal reverse_onto
components path = elim (split_on b'/' path) [
  | [] ↦ []
  | p ∷ rest ↦ reverse_onto [] (if p =? codes "." then p ∷ normal rest else normal (p ∷ rest))
]

-- `Path::file_name` of components: the last one, if it is a name.
pub file_name : List Str → Option Str
file_name [] = none
file_name (p ∷ _) = if p =? codes ".." || p =? codes "." then none else some p

tail : List Str → List Str
tail [] = []
tail (_ ∷ rest) = rest

-- `SdkInfo::from_path`
unfoldable pub from_path : Str → Option SdkInfo
unfolding components file_name tail memdb_captures sdk_captures get_sdk_name_from_folder sdk_of
from_path path = do
  filename ← file_name (components path)
  elim (memdb_captures filename) [
    | some caps ↦ sdk_of caps
    | none ↦ do
      folder ← file_name (tail (components path))
      name ← get_sdk_name_from_folder folder
      caps ← sdk_captures name filename
      sdk_of caps
  ]

-- `SdkInfo::from_filename`
unfoldable pub from_filename : Str → Option SdkInfo
unfolding from_path
from_filename filename = from_path filename

-- `Sdk::new`
unfoldable pub sdk_new : Str → Result SdkInfo
unfolding from_path
sdk_new path = elim (from_path path) [ none ↦ err unknown_sdk | some info ↦ ok info ]

-- `splitn(2, '/')`: the text before the first slash, and what is behind it.
split_first : ℕ → Str → Str × Option Str
split_first c [] = ([], none)
split_first c (x ∷ s) =
    let (a, rest) = split_first c s in if x == c then ([], some s) else (x ∷ a, rest)

-- The second attempt, behind the first directory.
strip_second : Str → Option Str → Str
unfolding split_first
strip_second path none = path
strip_second path (some s) =
    let (dir, behind) = split_first b'/' s in
    elim behind [ none ↦ path | some rest ↦ if dir =? codes "Symbols" then rest else path ]

unfoldable pub strip_archive_file_prefix : Str → Str
unfolding split_first strip_second
strip_archive_file_prefix path =
    let (dir, behind) = split_first b'/' path in
    elim behind [
      | none ↦ strip_second path none
      | some rest ↦ if dir =? codes "Symbols" then rest else strip_second path (some rest)
    ]
