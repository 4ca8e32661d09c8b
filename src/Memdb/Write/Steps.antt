-- ===== src/Memdb/Write/Steps.antt =====
-- src/memdb/write.rs: every step of a dump keeps what holds of the builder.
use symbolserver.Prelude.{ℕ, ◌+◌, ◌^◌, ◌≤◌, ◌<◌, ◌≡◌, inl, inr, refl, ap, sym, ◌∙◌, arith}
use symbolserver.Prelude.{Bool, true, false, some, List, [], ◌∷◌, ◌++◌, length, get_elem?, All, any}
use symbolserver.Prelude.{All-append, All-imp, get_elem?-snoc, lt_of_get_elem?, length-append}
use symbolserver.Prelude.{◌≢◌, ◌||◌}
use symbolserver.Prelude.Map
use symbolserver.Prelude.Order.{◌=?◌, =?_refl, nat_ord, list_ord}
use symbolserver.Prelude.Sort.{sort_by-All}
use symbolserver.Errors.{Str}
use symbolserver.Text.{codes, is_utf8}
use symbolserver.Sdk.{SdkInfo}
use symbolserver.Dsym.{Variant, arch}
use symbolserver.Utils.BinSearch.Sorting.{sort_by-IsSorted}
use symbolserver.Utils.BinSearch.Laws.{IsSorted}
use symbolserver.Memdb.Types.{Uuid, IndexedUuid, IndexItem, new_indexed_uuid, item_addr, as_u16}
use symbolserver.Memdb.Write.{
  MemDbBuilder, new_builder, intern, add_object_name, add_symbols, end_marker, sort_items,
  register_variant, add_mapping, see_uuid,
}
use symbolserver.Memdb.Write.Invariant.{IsKnown, IsInterned, IsWritten, IsSmall}
use symbolserver.Memdb.Write.Interning.{
  length-intern, intern-IsInterned, rest_of-add_symbols, IsKnown-le, add_symbols-IsKnown,
  end_marker-IsKnown,
}

nothing : (s : Str) (id : ℕ) → Map.get s [] ≡ some id → get_elem? {A = Str} [] id ≡ some s
unfolding Map.get
nothing s id at = absurd (cc at)

-- Before anything is written.
pub new_builder-IsWritten :
    (info : SdkInfo) (compress : Bool) → IsWritten (new_builder info compress)
new_builder-IsWritten info compress = record {
  items_known = tt;
  items_sorted = tt;
  rows_count = refl;
  rows_indexed = λ i e at. absurd (cc at);
  rows_distinct = λ i j e f at at' same. absurd (cc at);
  symbols_interned = record { utf8 = tt; found = λ s id. nothing s id };
  names_interned = record { utf8 = tt; found = λ s id. nothing s id };
  names_mapped = omega arith;
}

-- A UUID that was seen before adds its name alone.
pub add_mapping-IsWritten :
    (src arch : Str) (uuid : Uuid) (self : MemDbBuilder)
    → IsWritten self
    → IsWritten (add_mapping src arch uuid self)
add_mapping-IsWritten src arch uuid self w = record {
  items_known = w.items_known;
  items_sorted = w.items_sorted;
  rows_count = w.rows_count;
  rows_indexed = w.rows_indexed;
  rows_distinct = w.rows_distinct;
  symbols_interned = w.symbols_interned;
  names_interned = w.names_interned;
  names_mapped = omega (arith, w.names_mapped, length-append self.object_uuid_mapping (_ ∷ []));
}

or_left : (a b : Bool) → a ≡ true → (a || b) ≡ true
or_left a b h = ground arith

or_right : (a b : Bool) → b ≡ true → (a || b) ≡ true
or_right a b h = ground arith

-- A variant with its row, in a builder whose texts have grown.
module _ (self : MemDbBuilder) (names texts : List Str) (names_ids texts_ids : Map.Map Str ℕ)
    (mapping : List (Str × Uuid)) (count : ℕ) (uuid : Uuid) (items : List IndexItem) where
  abbrev pub grown : MemDbBuilder
  grown = record {
    info = self.info;
    symbols = texts;
    symbols_map = texts_ids;
    object_names = names;
    object_names_map = names_ids;
    object_uuid_mapping = mapping;
    variant_uuids = self.variant_uuids ++ new_indexed_uuid uuid (length self.variants) ∷ [];
    variant_uuids_seen = uuid ∷ self.variant_uuids_seen;
    variants = self.variants ++ items ∷ [];
    symbol_count = count;
    compress = self.compress;
  }

  fresh_row :
      IsWritten self
      → any (λ seen. seen =? uuid) self.variant_uuids_seen ≡ false
      → (i : ℕ) (e : IndexedUuid) → get_elem? self.variant_uuids i ≡ some e
      → e.uuid ≢ uuid
  fresh_row w fresh i e at same =
      let seen = (w.rows_indexed i e at).2 in
      absurd (cc (fresh, ap (λ u. any (λ seen. seen =? u) self.variant_uuids_seen) same, seen))

  grown-IsWritten :
      IsWritten self
      → length grown.variants ≤ 2 ^ 16
      → length uuid ≡ 16
      → any (λ seen. seen =? uuid) self.variant_uuids_seen ≡ false
      → length self.object_names ≤ length names
      → length self.symbols ≤ length texts
      → length names ≤ length mapping
      → IsInterned names names_ids
      → IsInterned texts texts_ids
      → All (IsKnown (length names) (length texts)) items
      → IsSorted item_addr items
      → IsWritten grown
  unfolding new_indexed_uuid
  grown-IsWritten w few sized fresh le le' mapped names_ok texts_ok known sorted = record {
    items_known =
        All-append _ self.variants (items ∷ [])
          (All-imp _ _ self.variants (λ v h. All-imp _ _ v (λ i k. IsKnown-le i le le' k) h)
            w.items_known)
          (known, tt);
    items_sorted = All-append _ self.variants (items ∷ []) w.items_sorted (sorted, tt);
    rows_count = omega (
      arith,
      w.rows_count,
      length-append self.variant_uuids (_ ∷ []),
      length-append self.variants (items ∷ []),
    );
    rows_indexed = λ i e at. elim (get_elem?-snoc self.variant_uuids _ i e at) [
      | inl old ↦
          let (idx, size, seen) = w.rows_indexed i e old in
          (idx, size, or_right (uuid =? e.uuid) _ seen)
      | inr (last, is) ↦ rw (← is) (
        omega (arith, last, w.rows_count, length-append self.variants (items ∷ [])),
        sized,
        or_left (uuid =? uuid) _ (=?_refl uuid),
      )
    ];
    rows_distinct = λ i j e f at at' same. elim (get_elem?-snoc self.variant_uuids _ i e at) [
      | inl old ↦ elim (get_elem?-snoc self.variant_uuids _ j f at') [
        | inl old' ↦ w.rows_distinct i j e f old old' same
        | inr (last, is) ↦
            absurd (fresh_row w fresh i e old (same ∙ sym (ap (λ (r : IndexedUuid). r.uuid) is)))
      ]
      | inr (last, is) ↦ elim (get_elem?-snoc self.variant_uuids _ j f at') [
        | inl old' ↦
            absurd
              (fresh_row w fresh j f old' (sym same ∙ sym (ap (λ (r : IndexedUuid). r.uuid) is)))
        | inr (last', is') ↦ last ∙ sym last'
      ]
    ];
    symbols_interned = texts_ok;
    names_interned = names_ok;
    names_mapped = mapped;
  }

-- What is written of a variant with a new UUID.
module _ (var : Variant) (uuid : Uuid) (src arch : Str) (syms : List (ℕ × Str))
    (self : MemDbBuilder) where
  abbrev pub seen_self : MemDbBuilder
  seen_self = see_uuid uuid (add_mapping src arch uuid self)

  abbrev pub named : ℕ × (List Str × Map.Map Str ℕ)
  named = intern as_u16 src self.object_names self.object_names_map

  abbrev pub added : List IndexItem × MemDbBuilder
  added = add_symbols var.vmaddr named.0 syms (add_object_name seen_self src).1

  abbrev pub marker : List IndexItem
  marker = end_marker var.vmsize named.0

  pub registered_lem :
      register_variant var uuid src syms seen_self
      ≡ grown self named.1.0 added.1.symbols named.1.1 added.1.symbols_map
          (self.object_uuid_mapping ++ (src ++ (codes ":" ++ arch), uuid) ∷ [])
          (added.1.symbol_count + length marker)
          uuid
          (sort_items (added.0 ++ marker))
  unfolding register_variant add_object_name
  registered_lem =
      let eq = rest_of-add_symbols var.vmaddr named.0 syms (add_object_name seen_self src).1 in
      λ i. record {
        info = (eq i).0;
        symbols = added.1.symbols;
        symbols_map = added.1.symbols_map;
        object_names = (eq i).1;
        object_names_map = (eq i).2;
        object_uuid_mapping = (eq i).3;
        variant_uuids = (eq i).4 ++ new_indexed_uuid uuid (length (eq i).6) ∷ [];
        variant_uuids_seen = (eq i).5;
        variants = (eq i).6 ++ sort_items (added.0 ++ marker) ∷ [];
        symbol_count = added.1.symbol_count + length marker;
        compress = (eq i).7;
      }

  pub register_variant-IsWritten :
      IsWritten self
      → is_utf8 src ≡ true
      → All (λ s. is_utf8 s.1 ≡ true) syms
      → length uuid ≡ 16
      → any (λ seen. seen =? uuid) self.variant_uuids_seen ≡ false
      → IsSmall (register_variant var uuid src syms seen_self)
      → IsWritten (register_variant var uuid src syms seen_self)
  unfolding sort_items add_object_name
  register_variant-IsWritten w src_utf8 syms_utf8 sized fresh small_ =
      let small : IsSmall (
          grown self named.1.0 added.1.symbols named.1.1 added.1.symbols_map
            (self.object_uuid_mapping ++ (src ++ (codes ":" ++ arch), uuid) ∷ [])
            (added.1.symbol_count + length marker) uuid (sort_items (added.0 ++ marker))) =
        rw registered_lem at small_ in
      let (longer, by_one) = length-intern as_u16 src self.object_names self.object_names_map in
      let names =
        intern-IsInterned as_u16 src self.object_names self.object_names_map (2 ^ 16)
          (λ n lt. omega arith) src_utf8 w.names_interned small.names_small in
      let src_known : named.0 < length named.1.0 = lt_of_get_elem? named.1.0 named.0 src names.at in
      let (texts, known, le) =
        add_symbols-IsKnown var.vmaddr named.0 (length named.1.0) syms
          (add_object_name seen_self src).1 src_known small.names_small syms_utf8 w.symbols_interned
          small.symbols_small in
      rw registered_lem (
        grown-IsWritten self named.1.0 added.1.symbols named.1.1 added.1.symbols_map
          (self.object_uuid_mapping ++ (src ++ (codes ":" ++ arch), uuid) ∷ [])
          (added.1.symbol_count + length marker) uuid (sort_items (added.0 ++ marker)) w
          small.variants_small sized fresh longer le
          (omega (arith, w.names_mapped, by_one, length-append self.object_uuid_mapping (_ ∷ [])))
          names.keeps texts
          (sort_by-All _ _ (added.0 ++ marker) (
            All-append _ added.0 marker known (
              end_marker-IsKnown var.vmsize named.0 (length named.1.0) (length added.1.symbols)
                src_known small.names_small)))
          (sort_by-IsSorted item_addr (added.0 ++ marker)))
