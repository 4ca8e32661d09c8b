-- ===== src/Sdk/Filename/Nameable.antt =====
-- src/sdk.rs: what a path is read as can be made a name of, and that name is read back.
use symbolserver.Prelude.{◌||◌, ◌^◌, ◌<◌, ◌≡◌, ◌≢◌, refl, arith, inl, inr}
use symbolserver.Prelude.{Bool, true, false, ◌==◌, Bool-cases, Option-cases, if◌then◌else◌}
use symbolserver.Prelude.{none, some, List, [], ◌∷◌, All}
use symbolserver.Prelude.Order.{◌=?◌, nat_ord, list_ord}
use mathlib.Core.Option.{some-injective}
use symbolserver.Errors.{Str}
use symbolserver.Text.{codes, from_str_radix}
use symbolserver.Text.Radix.{from_str_radix-lt}
use symbolserver.Sdk.{SdkInfo, make_id}
use symbolserver.Sdk.Filename.{
  ◌>>=◌, is_alnum, many, expect, Captures, version_captures, ends_memdb, memdb_captures,
  sdk_captures, space, spaces, get_sdk_name_from_folder, parse_u32, sdk_of, split_on, normal,
  reverse_onto, components, file_name, tail, from_path, from_filename,
}
use symbolserver.Sdk.Filename.Captured.{
  >>=-some, NoSlash, Plain, IsBuild, many-Word, IsCaptured, memdb_from-IsCaptured,
}
use symbolserver.Sdk.Filename.RoundTrip.{IsNameable, from_filename-make_id}

-- A folder names a plain SDK, and the build in parentheses is a word.
folder-Plain :
    (folder name : Str) → get_sdk_name_from_folder folder ≡ some name → (name ≢ []) × Plain name
unfolding get_sdk_name_from_folder
folder-Plain folder name h = elim (Bool-cases (folder =? codes "iOS DeviceSupport")) [
  | inl ios ↦
      let e : codes "iOS" ≡ name = some-injective (codes "iOS") name (rw ios at h) in
      rw (← e) (λ q. absurd (cc q), ((refl, refl), ((refl, refl), ((refl, refl), tt))))
  | inr other ↦ elim (Bool-cases (folder =? codes "tvOS DeviceSupport")) [
    | inl tvos ↦
        let e : codes "tvOS" ≡ name = some-injective (codes "tvOS") name (rw (other, tvos) at h) in
        rw (← e)
          (λ q. absurd (cc q), ((refl, refl), ((refl, refl), ((refl, refl), ((refl, refl), tt)))))
    | inr neither ↦ let h' : none ≡ some name = rw (other, neither) at h in absurd (cc h')
  ]
]

sdk_captures-IsCaptured :
    (name s : Str) (caps : Captures)
    → (name ≢ []) × Plain name
    → sdk_captures name s ≡ some caps
    → IsCaptured caps
unfolding sdk_captures
sdk_captures-IsCaptured name s caps known h =
    let (v, _, k) = >>=-some (version_captures s) _ caps h in
    let (s₂, _, k₂) = >>=-some (space v.1) _ caps k in
    let (s₃, _, k₃) = >>=-some (expect b'(' (spaces s₂ s₂)) _ caps k₂ in
    let (r, build, k₄) = >>=-some (many is_alnum s₃) _ caps k₃ in
    let (s₅, _, k₅) = >>=-some (expect b')' r.1) _ caps k₄ in
    elim (Bool-cases (s₅ =? [] || s₅ =? codes ".zip")) [
      | inr not_end ↦ let k' : none ≡ some caps = rw not_end at k₅ in absurd (cc k')
      | inl ends ↦
          let same : some (record {
            name = name;
            major = v.0.0;
            minor = v.0.1.0;
            patchlevel = v.0.1.1;
            build = some r.0;
          })
              ≡ some caps =
            rw ends at k₅ in
          let word : IsBuild (some r.0) =
            λ b e. rw (← some-injective r.0 b e) (many-Word is_alnum s₃ r build) in
          rw (← some-injective _ caps same)
            (record { name_nonempty = known.0; name_plain = known.1; build_plain = word })
    ]

sdk_of-IsNameable :
    (caps : Captures) (i : SdkInfo) → IsCaptured caps → sdk_of caps ≡ some i → IsNameable i
unfolding sdk_of parse_u32
sdk_of-IsNameable caps i h e =
    let (major, a, k₁) = >>=-some (from_str_radix 10 (2 ^ 32) caps.major) _ i e in
    let (minor, b, k₂) = >>=-some (from_str_radix 10 (2 ^ 32) caps.minor) _ i k₁ in
    let (patchlevel, c, k₃) =
      >>=-some (from_str_radix 10 (2 ^ 32) (elim caps.patchlevel [ none ↦ codes "0" | some p ↦ p ]))
        _ i k₂ in
    let positive : 0 < 2 ^ 32 = omega arith in
    rw (← some-injective _ i k₃) (record {
      name_nonempty = h.name_nonempty;
      name_plain = h.name_plain;
      major_fits = from_str_radix-lt 10 (2 ^ 32) positive caps.major major a;
      minor_fits = from_str_radix-lt 10 (2 ^ 32) positive caps.minor minor b;
      patchlevel_fits =
          from_str_radix-lt 10 (2 ^ 32) positive
            (elim caps.patchlevel [ none ↦ codes "0" | some p ↦ p ]) patchlevel c;
      build_plain = h.build_plain;
    })

split_on-NoSlash : (s : Str) → All NoSlash (split_on b'/' s)
unfolding split_on
split_on-NoSlash [] = (tt, tt)
split_on-NoSlash (x ∷ s) = by_parts (split_on b'/' s) (split_on-NoSlash s)
  where
    by_parts :
        (parts : List Str)
        → All NoSlash parts
        → All NoSlash (elim parts as (λ p. List Str) [
          | [] ↦ []
          | part ∷ rest ↦ if x == b'/' then [] ∷ part ∷ rest else (x ∷ part) ∷ rest
        ])
    by_parts [] h = tt
    by_parts (part ∷ rest) (h, hs) = elim (Bool-cases (x == b'/')) [
      | inl slash ↦ rw slash (tt, (h, hs))
      | inr other ↦ rw other ((other, h), hs)
    ]

normal-NoSlash : (parts : List Str) → All NoSlash parts → All NoSlash (normal parts)
unfolding normal
normal-NoSlash [] h = tt
normal-NoSlash (p ∷ rest) (h, hs) = elim (Bool-cases (p =? [] || p =? codes ".")) [
  | inl dropped ↦ rw (normal, dropped) (normal-NoSlash rest hs)
  | inr kept ↦ rw (normal, kept) (h, normal-NoSlash rest hs)
]

reverse_onto-NoSlash :
    (parts acc : List Str)
    → All NoSlash acc
    → All NoSlash parts
    → All NoSlash (reverse_onto acc parts)
unfolding reverse_onto
reverse_onto-NoSlash [] acc k h = k
reverse_onto-NoSlash (p ∷ rest) acc k (h, hs) = reverse_onto-NoSlash rest (p ∷ acc) (h, k) hs

if-NoSlash :
    (b : Bool) (xs ys : List Str)
    → All NoSlash xs
    → All NoSlash ys
    → All NoSlash (reverse_onto [] (if b then xs else ys))
if-NoSlash true xs ys h k = reverse_onto-NoSlash xs [] tt h
if-NoSlash false xs ys h k = reverse_onto-NoSlash ys [] tt k

components-NoSlash : (path : Str) → All NoSlash (components path)
unfolding components
components-NoSlash path = by_parts (split_on b'/' path) (split_on-NoSlash path)
  where
    by_parts :
        (parts : List Str)
        → All NoSlash parts
        → All NoSlash (elim parts as (λ x. List Str) [
          | [] ↦ []
          | p ∷ rest ↦
              reverse_onto [] (if p =? codes "." then p ∷ normal rest else normal (p ∷ rest))
        ])
    by_parts [] h = tt
    by_parts (p ∷ rest) (h, hs) =
        if-NoSlash (p =? codes ".") (p ∷ normal rest) (normal (p ∷ rest))
          (h, normal-NoSlash rest hs) (normal-NoSlash (p ∷ rest) (h, hs))

file_name-NoSlash :
    (parts : List Str) (f : Str) → All NoSlash parts → file_name parts ≡ some f → NoSlash f
unfolding file_name
file_name-NoSlash [] f h e = absurd (cc e)
file_name-NoSlash (p ∷ rest) f (h, hs) e = elim (Bool-cases (p =? codes ".." || p =? codes ".")) [
  | inl dots ↦ let e' : none ≡ some f = rw dots at e in absurd (cc e')
  | inr name ↦ let same : some p ≡ some f = rw name at e in rw (← some-injective p f same) h
]

-- What a path is read as has a name that is not empty and has neither a dash nor a slash, numbers
-- of 32 bits, and a build, if any, of letters and digits.
pub from_path-IsNameable : (path : Str) (i : SdkInfo) → from_path path ≡ some i → IsNameable i
unfolding from_path memdb_captures
from_path-IsNameable path i h =
    let (f, named, k) = >>=-some (file_name (components path)) _ i h in
    elim (Option-cases (memdb_captures f)) [
      | inr (caps, e) ↦
          let k' : sdk_of caps ≡ some i = rw e at k in
          sdk_of-IsNameable caps i
            (memdb_from-IsCaptured f [] caps
              (file_name-NoSlash (components path) f (components-NoSlash path) named) tt e)
            k'
      | inl e ↦
          let k' : (file_name (tail (components path)) >>= λ folder.
          get_sdk_name_from_folder folder >>= λ name. sdk_captures name f >>= sdk_of)
              ≡ some i =
            rw e at k in
          let (folder, _, k₁) = >>=-some (file_name (tail (components path))) _ i k' in
          let (name, known, k₂) = >>=-some (get_sdk_name_from_folder folder) _ i k₁ in
          let (caps, matched, k₃) = >>=-some (sdk_captures name f) sdk_of i k₂ in
          sdk_of-IsNameable caps i
            (sdk_captures-IsCaptured name f caps (folder-Plain folder name known) matched) k₃
    ]

-- Whatever a path is read as, its id and the names of its memdb file, compressed or not, are read
-- as the same.
pub from_filename-from_path :
    (path suffix : Str) (i : SdkInfo)
    → from_path path ≡ some i
    → ends_memdb suffix ≡ true
    → from_filename (make_id i suffix) ≡ some i
from_filename-from_path path suffix i h ends =
    from_filename-make_id i suffix (from_path-IsNameable path i h) ends
