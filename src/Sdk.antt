-- ===== src/Sdk.antt =====
-- src/sdk.rs: `SdkInfo`, its names and its comparison. The module Sdk.Filename reads names back.
use Prim.Native.Nat.{Ordering, lt, eq}
use symbolserver.Prelude.{ℕ, ◌≡◌, ap, ◌&&◌, not, ◌==◌, if◌then◌else◌}
use symbolserver.Prelude.{Option, none, some, [], ◌++◌}
use symbolserver.Prelude.Order.{Ord, nat_ord, pair_ord, list_ord, option_ord, flip, ◌=?◌}
use symbolserver.Errors.{Str}
use symbolserver.Text.{codes, to_radix}
pub mod Filename
pub mod Objects
pub mod Names

pub record SdkInfo : Type 0 where
  pub name : Str
  pub version_major : ℕ
  pub version_minor : ℕ
  pub version_patchlevel : ℕ
  pub build : Option Str

-- The fields in the order in which the derived `Ord` compares them.
abbrev pub fields : SdkInfo → Str × (ℕ × (ℕ × (ℕ × Option Str)))
fields i = (i.name, (i.version_major, (i.version_minor, (i.version_patchlevel, i.build))))

unfoldable pub sdk_cmp : SdkInfo → SdkInfo → Ordering
sdk_cmp a b = (pair_ord).cmp (fields a) (fields b)

abbrev of_fields : Str × (ℕ × (ℕ × (ℕ × Option Str))) → SdkInfo
of_fields (n, (a, (b, (c, d)))) = record {
  name = n;
  version_major = a;
  version_minor = b;
  version_patchlevel = c;
  build = d;
}

pub sdk-eq_of_cmp : (a b : SdkInfo) → sdk_cmp a b ≡ eq → a ≡ b
unfolding sdk_cmp
sdk-eq_of_cmp a b h = ap of_fields (pair_ord.eq_of_cmp (fields a) (fields b) h)

pub sdk-cmp_refl : (a : SdkInfo) → sdk_cmp a a ≡ eq
unfolding sdk_cmp
sdk-cmp_refl a = pair_ord.cmp_refl (fields a)

pub sdk-cmp_flip : (a b : SdkInfo) → sdk_cmp b a ≡ flip (sdk_cmp a b)
unfolding sdk_cmp
sdk-cmp_flip a b = pair_ord.cmp_flip (fields a) (fields b)

pub sdk-cmp_trans : (a b c : SdkInfo) → sdk_cmp a b ≡ lt → sdk_cmp b c ≡ lt → sdk_cmp a c ≡ lt
unfolding sdk_cmp
sdk-cmp_trans a b c = pair_ord.cmp_trans (fields a) (fields b) (fields c)

-- `#[derive(Eq, PartialEq, PartialOrd, Ord)]`
instance abbrev pub sdk_ord : Ord SdkInfo
sdk_ord = record {
  cmp = sdk_cmp;
  eq_of_cmp = sdk-eq_of_cmp;
  cmp_refl = sdk-cmp_refl;
  cmp_flip = sdk-cmp_flip;
  cmp_trans = sdk-cmp_trans;
}

abbrev decimal : ℕ → Str
decimal n = to_radix 10 n

-- `Display` of `Version`.
unfoldable pub version : SdkInfo → Str
version i =
    if i.version_patchlevel == 0
    then decimal i.version_major ++ (codes "." ++ decimal i.version_minor)
    else decimal i.version_major
      ++ (codes "." ++ (decimal i.version_minor ++ (codes "." ++ decimal i.version_patchlevel)))

-- `Display` of `SdkInfo`.
unfoldable pub display : SdkInfo → Str
unfolding version
display i =
    let build : Str = elim i.build [ none ↦ codes "UNKNOWN" | some b ↦ b ] in
    i.name ++ (codes " " ++ (version i ++ (codes " (" ++ (build ++ codes ")"))))

-- `{}.{}.{}` of the three version numbers, and what stands behind it.
dotted : SdkInfo → Str → Str
dotted i rest =
    decimal i.version_major
    ++ (codes "."
        ++ (decimal i.version_minor ++ (codes "." ++ (decimal i.version_patchlevel ++ rest))))

unfoldable pub make_id : SdkInfo → Str → Str
unfolding dotted
make_id i suffix = elim i.build [
  | none ↦ i.name ++ (codes "_" ++ dotted i suffix)
  | some build ↦ i.name ++ (codes "_" ++ dotted i (codes "_" ++ (build ++ suffix)))
]

unfoldable pub sdk_id : SdkInfo → Str
unfolding make_id
sdk_id i = make_id i []

unfoldable pub memdb_filename : SdkInfo → Str
unfolding make_id
memdb_filename i = make_id i (codes ".memdb")

unfoldable pub get_fuzzy_match : SdkInfo → SdkInfo → Option ℕ
get_fuzzy_match self other =
    if not (
      self.name =? other.name
      && (self.version_major =? other.version_major && self.version_minor =? other.version_minor))
    then none
    else if not (self.version_patchlevel =? other.version_patchlevel)
    then some 2
    else if not (self.build =? other.build)
    then some 1
    else some 0
