-- ===== src/Memdb/Write.antt =====
-- src/memdb/write.rs: the builder of a memdb file, up to `write_object`. The target is a release
-- build, where the subtraction of addresses wraps.
use symbolserver.Prelude.{ℕ, ◌+◌, ◌-◌, ◌%◌, ◌^◌, Bool, true, false, ltb, if◌then◌else◌}
use symbolserver.Prelude.{Option, none, some, List, [], ◌∷◌, ◌++◌, length, any}
use symbolserver.Prelude.Order.{Ord, ◌=?◌, nat_ord, list_ord}
use symbolserver.Prelude.Map
use symbolserver.Prelude.Map.{Map}
use symbolserver.Prelude.Sort.{sort_by}
use symbolserver.Errors.{Str, Result, ok, err, panic, undefined, ◌>>=◌}
use symbolserver.Text.{codes}
use symbolserver.Sdk.{SdkInfo}
use symbolserver.Dsym.{MachObject, Object, Variant, arch, symbols, iter}
use symbolserver.Memdb.Types.{
  Uuid, IndexedUuid, IndexItem, new_indexed_uuid, new_item, item_addr, as_u16, as_u32,
}
pub mod Layout
pub mod Region
pub mod LayoutLaws
pub mod Flush
pub mod Pieces
pub mod File
pub mod Tables
pub mod Invariant
pub mod Interning
pub mod Named
pub mod Steps
pub mod Dump
pub mod Answers
pub mod RoundTrip
pub mod Lookups

-- `MemDbBuilder`, but for the files that it writes to.
pub record MemDbBuilder : Type 0 where
  pub info : SdkInfo
  pub symbols : List Str
  pub symbols_map : Map Str ℕ
  pub object_names : List Str
  pub object_names_map : Map Str ℕ
  pub object_uuid_mapping : List (Str × Uuid)
  pub variant_uuids : List IndexedUuid
  pub variant_uuids_seen : List Uuid
  pub variants : List (List IndexItem)
  pub symbol_count : ℕ
  pub compress : Bool

-- `MemDbBuilder::new`
abbrev pub new_builder : SdkInfo → Bool → MemDbBuilder
new_builder info compress = record {
  info = info;
  symbols = [];
  symbols_map = [];
  object_names = [];
  object_names_map = [];
  object_uuid_mapping = [];
  variant_uuids = [];
  variant_uuids_seen = [];
  variants = [];
  symbol_count = 0;
  compress = compress;
}

-- The id of a text in a list of texts and in the map from texts to ids; a new one gets the next.
-- `add_symbol` and `add_object_name` differ in the width of the id.
unfoldable pub intern : (ℕ → ℕ) → Str → List Str → Map Str ℕ → ℕ × (List Str × Map Str ℕ)
intern width s texts ids = elim (Map.get s ids) [
  | some id ↦ (id, (texts, ids))
  | none ↦ (width (length texts), (texts ++ s ∷ [], Map.insert s (width (length texts)) ids))
]

unfoldable pub add_symbol : MemDbBuilder → Str → ℕ × MemDbBuilder
unfolding intern
add_symbol self sym =
    let (id, (texts, ids)) = intern as_u32 sym self.symbols self.symbols_map in
    (id, record self { symbols = texts; symbols_map = ids })

unfoldable pub add_object_name : MemDbBuilder → Str → ℕ × MemDbBuilder
unfolding intern
add_object_name self src =
    let (id, (texts, ids)) = intern as_u16 src self.object_names self.object_names_map in
    (id, record self { object_names = texts; object_names_map = ids })

-- The loop over the symbols of a variant.
unfoldable pub add_symbols : ℕ → ℕ → List (ℕ × Str) → MemDbBuilder → List IndexItem × MemDbBuilder
add_symbols vmaddr src_id [] self = ([], self)
add_symbols vmaddr src_id ((addr, sym) ∷ rest) self =
    let (sym_id, self₁) = add_symbol self sym in
    let (index, self₂) =
      add_symbols vmaddr src_id rest (record self₁ { symbol_count = self₁.symbol_count + 1 }) in
    (new_item ((addr + 2 ^ 64 - vmaddr) % 2 ^ 64) src_id (some sym_id) ∷ index, self₂)

-- The end marker, if the size of the image is known.
unfoldable pub end_marker : ℕ → ℕ → List IndexItem
end_marker vmsize src_id = if ltb 0 vmsize then new_item vmsize src_id none ∷ [] else []

unfoldable pub sort_items : List IndexItem → List IndexItem
sort_items = sort_by (λ a b. nat_ord.cmp (item_addr a) (item_addr b))

-- `write_object_variant`, behind the reading of the symbols.
unfoldable pub register_variant :
    Variant → Uuid → Str → List (ℕ × Str) → MemDbBuilder → MemDbBuilder
register_variant var uuid src syms self =
    let (src_id, self₁) = add_object_name self src in
    let (index, self₂) = add_symbols var.vmaddr src_id syms self₁ in
    let marker = end_marker var.vmsize src_id in
    record self₂ {
      symbol_count = self₂.symbol_count + length marker;
      variant_uuids = self₂.variant_uuids ++ new_indexed_uuid uuid (length self₂.variants) ∷ [];
      variants = self₂.variants ++ sort_items (index ++ marker) ∷ [];
    }

-- The entries that are made before the UUID is looked at, and where it is new.
abbrev pub add_mapping : Str → Str → Uuid → MemDbBuilder → MemDbBuilder
add_mapping src arch uuid self = record self {
  object_uuid_mapping = self.object_uuid_mapping ++ (src ++ (codes ":" ++ arch), uuid) ∷ [];
}

abbrev pub see_uuid : Uuid → MemDbBuilder → MemDbBuilder
see_uuid uuid self = record self { variant_uuids_seen = uuid ∷ self.variant_uuids_seen }

module _ (lib : MachObject) where
  -- `write_object_variant`; an error ends the dump, so that the builder is not needed then.
  unfoldable pub write_object_variant :
      Object → Variant → Uuid → Str → MemDbBuilder → Result (Bool × MemDbBuilder)
  write_object_variant obj var uuid src self =
      let var_arch = arch lib var.cputype var.cpusubtype in
      let self₁ = add_mapping src var_arch uuid self in
      if any (λ seen. seen =? uuid) self.variant_uuids_seen then ok (false, self₁) else do
        syms ← symbols lib obj var_arch
        ok (true, register_variant var uuid src (iter lib syms) (see_uuid uuid self₁))

  -- `variant.name().or(filename).unwrap()`
  unfoldable pub variant_src : Variant → Option Str → Result Str
  variant_src var filename = elim var.name [
    | some name ↦ ok name
    | none ↦ elim filename [ some name ↦ ok name | none ↦ panic ]
  ]

  -- The loop of `write_object`.
  unfoldable pub write_variants :
      Object → Option Str → List Variant → MemDbBuilder → Result MemDbBuilder
  write_variants obj filename [] self = ok self
  write_variants obj filename (var ∷ rest) self = do
    src ← variant_src var filename
    self' ← elim var.uuid [
      | none ↦ ok self
      | some uuid ↦ (do (_, b) ← write_object_variant obj var uuid src self; ok b)
    ]
    write_variants obj filename rest self'

  unfoldable pub write_object : Object → Option Str → MemDbBuilder → Result MemDbBuilder
  write_object obj filename self = write_variants obj filename obj.variants self
