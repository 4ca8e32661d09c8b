-- ===== src/Memdb/Types/Laws.antt =====
-- What the packed records keep of the values that are stored in them.
use symbolserver.Prelude.{
  ℕ, ◌%◌, ◌^◌, ◌≤◌, ◌<◌, ◌≡◌, ◌≢◌, refl, ap, ◌∙◌, zero, suc, le→leb, Option-cases, inl, inr, Bool,
  true, false,
}
use symbolserver.Prelude.{Option, none, some, [], ◌∷◌, ◌++◌, length, drop, arith}
use symbolserver.Prelude.{replicate, length-replicate, length-append, length-drop, ◌-◌}
use symbolserver.Errors.{Str, ok, ◌>>=◌}
use symbolserver.Bytes.{Bytes}
use symbolserver.Text.{is_utf8, trim_zeros}
use symbolserver.Text.Utf8.{padded-is_utf8, trim_zeros-padded}
use symbolserver.Sdk.{SdkInfo}
use symbolserver.Memdb.Types.{
  PackedSdkInfo, copy_str_to_slice, str_from_zero_slice, set_from_sdk_info, to_sdk_info, new_item,
  item_addr, item_sym_id, new_slice, slice_len, is_compressed, no_symbol, as_u16,
}

-- An item keeps the low 48 bits of its address, so a smaller address is kept whole.
pub item_addr-new_item :
    (addr src : ℕ) (sym : Option ℕ)
    → (item_addr (new_item addr src sym) ≡ addr % 2 ^ 48)
      × (addr < 2 ^ 48 → item_addr (new_item addr src sym) ≡ addr)
unfolding item_addr new_item
item_addr-new_item addr src sym = (omega arith, λ h. omega arith)

-- A symbol id comes back, and so does its absence, but for the one id that marks absence.
pub item_sym_id-new_item :
    (addr src : ℕ) (sym : Option ℕ)
    → sym ≢ some no_symbol
    → item_sym_id (new_item addr src sym) ≡ sym
unfolding item_sym_id new_item
item_sym_id-new_item addr src none h = refl
item_sym_id-new_item addr src (some id) h = ground arith

-- A slice below 2 GiB keeps its length and its flag, compressed or not; the offset needs 32 bits.
pub new_slice_roundtrip :
    (offset len : ℕ) (c : Bool)
    → offset < 2 ^ 32
    → len < 2 ^ 31
    → let s = new_slice offset len c in
      (s.offset ≡ offset) × (slice_len s ≡ len) × (is_compressed s ≡ c)
unfolding new_slice slice_len is_compressed
new_slice_roundtrip offset len true h k = (omega arith, ground arith, ground arith)
new_slice_roundtrip offset len false h k = (omega arith, ground arith, ground arith)

-- A packed description has room for the text, and the text is UTF-8 and ends in no zero byte.
pub record Fits (room : ℕ) (s : Str) : Type 0 where
  pub room_left : length s ≤ room
  pub valid : is_utf8 s ≡ true
  pub trimmed : trim_zeros s ≡ s

-- What `PackedSdkInfo` can hold: a name of 8 bytes, a build of 24, versions of 16 bits.
pub record IsPackable (i : SdkInfo) : Type 0 where
  pub name_fits : Fits 8 i.name
  pub build_fits : (b : Str) → i.build ≡ some b → Fits 24 b × (b ≢ [])
  pub major_fits : i.version_major < 2 ^ 16
  pub minor_fits : i.version_minor < 2 ^ 16
  pub patchlevel_fits : i.version_patchlevel < 2 ^ 16

-- The zeroed record of `Default::default()`.
abbrev pub default_packed : PackedSdkInfo
default_packed = record {
  name = replicate 8 0;
  version_major = 0;
  version_minor = 0;
  version_patchlevel = 0;
  build = replicate 24 0;
}

drop-replicate : (n m : ℕ) → drop {A = ℕ} n (replicate m 0) ≡ replicate (m - n) 0
drop-replicate zero m = ap (λ k. replicate k 0) (omega arith)
drop-replicate (suc n) zero = ap (λ k. replicate k 0) {x = 0} (omega arith)
drop-replicate (suc n) (suc m) =
    drop-replicate n m ∙ ap (λ k. replicate k 0) {x = m - n} (omega arith)

copied :
    (room : ℕ) (s : Str)
    → Fits room s
    → (packed : Bytes) × (copy_str_to_slice (replicate room 0) s ≡ ok packed)
      × (str_from_zero_slice packed ≡ ok s)
      × (length packed ≡ room)
unfolding copy_str_to_slice str_from_zero_slice
copied room s f = (
  s ++ drop (length s) (replicate room 0),
  rw (length-replicate {A = ℕ} room 0, le→leb (length s) room f.room_left),
  rw (
    drop-replicate (length s) room,
    padded-is_utf8 s (room - length s) f.valid,
    trim_zeros-padded s (room - length s),
    f.trimmed,
  ),
  omega (
    arith,
    length-append s (drop (length s) (replicate room 0)),
    length-drop (length s) (replicate {A = ℕ} room 0),
    length-replicate {A = ℕ} room 0,
    f.room_left,
  ),
)

as_u16_lem : (x : ℕ) → x < 2 ^ 16 → as_u16 x ≡ x
as_u16_lem x h = omega arith

nonempty : (b : Str) → b ≢ [] → (elim b [ [] ↦ none | c ∷ cs ↦ some (c ∷ cs) ]) ≡ some b
nonempty [] h = absurd (h refl)
nonempty (c ∷ cs) h = refl

zeros_lem : str_from_zero_slice (replicate 24 0) ≡ ok []
unfolding str_from_zero_slice is_utf8 trim_zeros
zeros_lem = refl

-- What a description that fits is packed to.
pub record IsPackedInfo (i : SdkInfo) (p : PackedSdkInfo) : Type 0 where
  pub packed : set_from_sdk_info default_packed i ≡ ok p
  pub back : to_sdk_info p ≡ ok i
  pub name_sized : length p.name ≡ 8
  pub build_sized : length p.build ≡ 24
  pub major_fits : p.version_major < 2 ^ 16
  pub minor_fits : p.version_minor < 2 ^ 16
  pub patchlevel_fits : p.version_patchlevel < 2 ^ 16

module _ (i : SdkInfo) (p : IsPackable i) where
  -- The packed record, of a name and a build in their fields.
  packed_as : Bytes → Bytes → PackedSdkInfo
  packed_as name build = record {
    name = name;
    version_major = as_u16 i.version_major;
    version_minor = as_u16 i.version_minor;
    version_patchlevel = as_u16 i.version_patchlevel;
    build = build;
  }

  pub packed_info : (q : PackedSdkInfo) × IsPackedInfo i q
  unfolding set_from_sdk_info to_sdk_info packed_as
  packed_info = elim (Option-cases i.build) [
    | inl e ↦
        let (name, e₁, e₂, sized) = copied 8 i.name p.name_fits in
        (
          packed_as name (replicate 24 0),
          record {
            packed = rw (e, e₁) refl;
            back =
                rw
                  (
                    e₂,
                    zeros_lem,
                    as_u16_lem _ p.major_fits,
                    as_u16_lem _ p.minor_fits,
                    as_u16_lem _ p.patchlevel_fits,
                    e,
                  )
                  refl;
            name_sized = sized;
            build_sized = length-replicate {A = ℕ} 24 0;
            major_fits = omega arith;
            minor_fits = omega arith;
            patchlevel_fits = omega arith;
          },
        )
    | inr (b, e) ↦
        let (name, e₁, e₂, sized) = copied 8 i.name p.name_fits in
        let (build, e₃, e₄, build_sized) = copied 24 b (p.build_fits b e).0 in
        (
          packed_as name build,
          record {
            packed = rw (e, e₁, e₃) refl;
            back =
                rw
                  (
                    e₂,
                    e₄,
                    as_u16_lem _ p.major_fits,
                    as_u16_lem _ p.minor_fits,
                    as_u16_lem _ p.patchlevel_fits,
                    nonempty b (p.build_fits b e).1,
                    e,
                  )
                  refl;
            name_sized = sized;
            build_sized = build_sized;
            major_fits = omega arith;
            minor_fits = omega arith;
            patchlevel_fits = omega arith;
          },
        )
  ]

-- A description that fits is packed without a panic and is read back as it was.
pub to_sdk_info-set_from_sdk_info :
    (i : SdkInfo) → IsPackable i → (set_from_sdk_info default_packed i >>= to_sdk_info) ≡ ok i
to_sdk_info-set_from_sdk_info i p = let (q, h) = packed_info i p in rw h.packed h.back
