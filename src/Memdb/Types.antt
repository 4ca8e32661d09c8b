-- ===== src/Memdb/Types.antt =====
-- src/memdb/types.rs: the records that a memdb file is made of.
use symbolserver.Prelude.{ℕ, ◌+◌, ◌*◌, ◌/◌, ◌%◌, ◌^◌, Bool, true, false, not, ◌==◌, leb}
use symbolserver.Prelude.{Option, none, some, List, [], ◌∷◌, ◌++◌, length, drop, if◌then◌else◌}
use symbolserver.Errors.{Str, Result, ok, panic, ◌>>=◌, ◌>>◌}
use symbolserver.Bytes.{Bytes}
use symbolserver.Text.{is_utf8, trim_zeros}
use symbolserver.Sdk.{SdkInfo}
pub mod Laws

-- The 16 octets of a `uuid::Uuid`, which its derived `Ord` compares in order.
abbrev pub Uuid : Type 0
Uuid = Bytes

-- `as u16`, `as u32`.
abbrev pub as_u16 : ℕ → ℕ
as_u16 x = x % 2 ^ 16

abbrev pub as_u32 : ℕ → ℕ
as_u32 x = x % 2 ^ 32

pub record PackedSdkInfo : Type 0 where
  pub name : Bytes
  pub version_major : ℕ
  pub version_minor : ℕ
  pub version_patchlevel : ℕ
  pub build : Bytes

pub record MemDbHeader : Type 0 where
  pub version : ℕ
  pub sdk_info : PackedSdkInfo
  pub variants_start : ℕ
  pub variants_count : ℕ
  pub uuids_start : ℕ
  pub uuids_count : ℕ
  pub tagged_object_names_start : ℕ
  pub tagged_object_names_end : ℕ
  pub object_names_start : ℕ
  pub object_names_count : ℕ
  pub symbols_start : ℕ
  pub symbols_count : ℕ

pub record StoredSlice : Type 0 where
  pub offset : ℕ
  pub len : ℕ

pub record IndexedUuid : Type 0 where
  pub uuid : Uuid
  pub idx : ℕ

pub record IndexItem : Type 0 where
  pub addr_low : ℕ
  pub addr_high : ℕ
  pub src_id : ℕ
  pub sym_id : ℕ

-- The slice `slice[..bytes.len()]` panics where the text is longer.
unfoldable pub copy_str_to_slice : Bytes → Str → Result Bytes
copy_str_to_slice slice s =
    if leb (length s) (length slice) then ok (s ++ drop (length s) slice) else panic

-- `from_utf8(slice).unwrap()` panics on other bytes than UTF-8.
unfoldable pub str_from_zero_slice : Bytes → Result Str
str_from_zero_slice slice = if is_utf8 slice then ok (trim_zeros slice) else panic

unfoldable pub set_from_sdk_info : PackedSdkInfo → SdkInfo → Result PackedSdkInfo
unfolding copy_str_to_slice
set_from_sdk_info self info = do
  name ← copy_str_to_slice self.name info.name
  build ← elim info.build [ none ↦ ok self.build | some build ↦ copy_str_to_slice self.build build ]
  ok (record {
    name = name;
    version_major = as_u16 info.version_major;
    version_minor = as_u16 info.version_minor;
    version_patchlevel = as_u16 info.version_patchlevel;
    build = build;
  })

unfoldable pub to_sdk_info : PackedSdkInfo → Result SdkInfo
unfolding str_from_zero_slice
to_sdk_info self = do
  build ← str_from_zero_slice self.build
  name ← str_from_zero_slice self.name
  ok (record {
    name = name;
    version_major = self.version_major;
    version_minor = self.version_minor;
    version_patchlevel = self.version_patchlevel;
    build = elim build [ [] ↦ none | b ∷ bs ↦ some (b ∷ bs) ];
  })

-- `IndexedUuid::new`.
unfoldable pub new_indexed_uuid : Uuid → ℕ → IndexedUuid
new_indexed_uuid uuid idx = record { uuid = uuid; idx = as_u16 idx }

-- `x | 0x80000000`: bit 31 is set, if it is not.
set_bit_31 : ℕ → ℕ
set_bit_31 x = if x / 2 ^ 31 % 2 == 1 then x else x + 2 ^ 31

-- `StoredSlice::new`.
unfoldable pub new_slice : ℕ → ℕ → Bool → StoredSlice
unfolding set_bit_31
new_slice offset len is_compressed =
    let len' = if is_compressed then set_bit_31 len else len in
    record { offset = as_u32 offset; len = as_u32 len' }

-- `StoredSlice::len`: `& 0x7fffffff`.
unfoldable pub slice_len : StoredSlice → ℕ
slice_len s = s.len % 2 ^ 31

-- `StoredSlice::is_compressed`.
unfoldable pub is_compressed : StoredSlice → Bool
is_compressed s = not (s.len / 2 ^ 31 == 0)

-- `!0` as a `u32`, the mark of an item without a symbol.
abbrev pub no_symbol : ℕ
no_symbol = 4294967295

-- `IndexItem::new`.
unfoldable pub new_item : ℕ → ℕ → Option ℕ → IndexItem
new_item addr src_id sym_id = record {
  addr_low = addr % 2 ^ 32;
  addr_high = addr / 2 ^ 32 % 2 ^ 16;
  src_id = src_id;
  sym_id = elim sym_id [ none ↦ no_symbol | some id ↦ id ];
}

-- `IndexItem::addr`. The two halves have no bit in common, so `|` is their sum.
unfoldable pub item_addr : IndexItem → ℕ
item_addr i = i.addr_high * 2 ^ 32 + i.addr_low

-- `IndexItem::sym_id`.
unfoldable pub item_sym_id : IndexItem → Option ℕ
item_sym_id i = if i.sym_id == no_symbol then none else some i.sym_id
