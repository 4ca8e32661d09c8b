-- ===== src/Memdb/Write/Interning.antt =====
-- src/memdb/write.rs: the ids of texts, and the items of a variant.
use symbolserver.Prelude.{ℕ, ◌+◌, ◌^◌, ◌≤◌, ◌<◌, ◌≡◌, inl, inr, refl, sym, ◌∙◌, arith}
use symbolserver.Prelude.{Bool, true, some, List, [], ◌∷◌, ◌++◌, length, get_elem?, All}
use symbolserver.Prelude.{All-append, lt_of_get_elem?, get_elem?-append, get_elem?-length_append}
use symbolserver.Prelude.{length-append, Option-cases, Bool-cases, ltb, if◌then◌else◌}
use symbolserver.Prelude.Order.{◌=?◌, eq_of_=?, nat_ord, list_ord}
use symbolserver.Prelude.Map
use mathlib.Core.Option.{some-injective}
use symbolserver.Errors.{Str}
use symbolserver.Text.{is_utf8}
use symbolserver.Sdk.{SdkInfo}
use symbolserver.Memdb.Types.{Uuid, IndexedUuid, IndexItem, new_item, no_symbol, as_u32}
use symbolserver.Memdb.Write.{MemDbBuilder, intern, add_symbol, add_symbols, end_marker}
use symbolserver.Memdb.Write.Invariant.{IsKnown, IsInterned}

module _ (width : ℕ → ℕ) (s : Str) (texts : List Str) (ids : Map.Map Str ℕ) where
  pub length-intern :
      (length texts ≤ length (intern width s texts ids).1.0)
      × (length (intern width s texts ids).1.0 ≤ length texts + 1)
  unfolding intern
  length-intern = elim (Option-cases (Map.get s ids)) [
    | inl e ↦ rw (e, intern, length-append texts (s ∷ [])) (omega arith, omega arith)
    | inr (id, e) ↦ rw (e, intern) (omega arith, omega arith)
  ]

  -- The id that is handed out has the text.
  pub record Interns : Type 0 where
    pub at : get_elem? (intern width s texts ids).1.0 (intern width s texts ids).0 ≡ some s
    pub keeps : IsInterned (intern width s texts ids).1.0 (intern width s texts ids).1.1

  -- A new text at the end, with its place as its id.
  found_more :
      ((t : Str) (i : ℕ) → Map.get t ids ≡ some i → get_elem? texts i ≡ some t)
      → (t : Str) (i : ℕ) → Map.get t (Map.insert s (length texts) ids) ≡ some i
      → get_elem? (texts ++ s ∷ []) i ≡ some t
  found_more found t i at =
      let at' : (if s =? t then some (length texts) else Map.get t ids) ≡ some i =
        sym (Map.get-insert t s (length texts) ids) ∙ at in
      elim (Bool-cases (s =? t)) [
        | inl same ↦
            let e : some (length texts) ≡ some i = rw same at at' in
            rw (← some-injective (length texts) i e, ← eq_of_=? s t same)
              (get_elem?-length_append texts s)
        | inr other ↦
            let e : Map.get t ids ≡ some i = rw other at at' in
            let old = found t i e in
            get_elem?-append texts (s ∷ []) i (lt_of_get_elem? texts i t old) ∙ old
      ]

  pub intern-IsInterned :
      (room : ℕ)
      → ((n : ℕ) → n < room → width n ≡ n)
      → is_utf8 s ≡ true
      → IsInterned texts ids
      → length (intern width s texts ids).1.0 ≤ room
      → Interns
  unfolding intern
  intern-IsInterned room fits utf8 h le = elim (Option-cases (Map.get s ids)) [
    | inr (id, e) ↦ record { at = rw (e, intern) (h.found s id e); keeps = rw (e, intern) h }
    | inl e ↦
        let le' : length (texts ++ s ∷ []) ≤ room = rw (e, intern) at le in
        let id : width (length texts) ≡ length texts =
          fits (length texts) (omega (arith, length-append texts (s ∷ []))) in
        record {
          at = rw (e, intern, id) (get_elem?-length_append texts s);
          keeps =
              rw (e, intern, id)
                (record {
                  utf8 = All-append _ texts (s ∷ []) h.utf8 (utf8, tt);
                  found = found_more h.found;
                });
        }
  ]

-- Symbols that are added leave the rest of the builder as it was.
abbrev pub Rest : Type 0
Rest =
    SdkInfo
    × List Str
    × Map.Map Str ℕ
    × List (Str × Uuid)
    × List IndexedUuid
    × List Uuid
    × List (List IndexItem)
    × Bool

abbrev pub rest_of : MemDbBuilder → Rest
rest_of b = (
  b.info, b.object_names, b.object_names_map, b.object_uuid_mapping, b.variant_uuids,
  b.variant_uuids_seen, b.variants, b.compress,
)

pub IsKnown-le :
    {names names' symbols symbols' : ℕ} (i : IndexItem)
    → names ≤ names'
    → symbols ≤ symbols'
    → IsKnown names symbols i
    → IsKnown names' symbols' i
IsKnown-le i le le' k = record {
  fits = k.fits;
  src_known = omega (arith, k.src_known);
  sym_known = elim k.sym_known [ inl e ↦ inl e | inr lt ↦ inr (omega arith) ];
}

module _ (vmaddr src_id : ℕ) where
  pub rest_of-add_symbols :
      (syms : List (ℕ × Str)) (self : MemDbBuilder)
      → rest_of (add_symbols vmaddr src_id syms self).1 ≡ rest_of self
  unfolding add_symbols add_symbol
  rest_of-add_symbols [] self = refl
  rest_of-add_symbols ((addr, sym) ∷ syms) self =
      rest_of-add_symbols syms
        (record (add_symbol self sym).1 { symbol_count = (add_symbol self sym).1.symbol_count + 1 })

  pub length-add_symbols :
      (syms : List (ℕ × Str)) (self : MemDbBuilder)
      → length self.symbols ≤ length (add_symbols vmaddr src_id syms self).1.symbols
  unfolding add_symbols add_symbol
  length-add_symbols [] self = omega arith
  length-add_symbols ((addr, sym) ∷ syms) self = omega (
    arith,
    (length-intern as_u32 sym self.symbols self.symbols_map).0,
    length-add_symbols syms (record (add_symbol self sym).1 {
      symbol_count = (add_symbol self sym).1.symbol_count + 1;
    }),
  )

  -- An item of a symbol, or of the end of an image.
  new_item-IsKnown :
      (addr names symbols id : ℕ)
      → src_id < names
      → names ≤ 2 ^ 16
      → id < symbols
      → symbols ≤ no_symbol
      → IsKnown names symbols (new_item addr src_id (some id))
  unfolding new_item
  new_item-IsKnown addr names symbols id lt few known small = record {
    fits = record {
      low_fits = omega arith;
      high_fits = omega arith;
      src_fits = omega arith;
      sym_fits = omega arith;
    };
    src_known = lt;
    sym_known = inr known;
  }

  pub end_marker-IsKnown :
      (names symbols : ℕ)
      → src_id < names
      → names ≤ 2 ^ 16
      → All (IsKnown names symbols) (end_marker vmaddr src_id)
  unfolding end_marker new_item
  end_marker-IsKnown names symbols lt few = elim (Bool-cases (ltb 0 vmaddr)) [
    | inr e ↦ rw (e, end_marker) tt
    | inl e ↦
        rw (e, end_marker)
          (
            record {
              fits = record {
                low_fits = omega arith;
                high_fits = omega arith;
                src_fits = omega arith;
                sym_fits = omega arith;
              };
              src_known = lt;
              sym_known = inl refl;
            },
            tt,
          )
  ]

  -- The items of the symbols are known, if the ids have room for all.
  pub add_symbols-IsKnown :
      (names : ℕ) (syms : List (ℕ × Str)) (self : MemDbBuilder)
      → src_id < names
      → names ≤ 2 ^ 16
      → All (λ s. is_utf8 s.1 ≡ true) syms
      → IsInterned self.symbols self.symbols_map
      → length (add_symbols vmaddr src_id syms self).1.symbols ≤ no_symbol
      → IsInterned
          (add_symbols vmaddr src_id syms self).1.symbols
          (add_symbols vmaddr src_id syms self).1.symbols_map
        × All
            (IsKnown names (length (add_symbols vmaddr src_id syms self).1.symbols))
            (add_symbols vmaddr src_id syms self).0
        × (length self.symbols ≤ length (add_symbols vmaddr src_id syms self).1.symbols)
  unfolding add_symbols add_symbol
  add_symbols-IsKnown names [] self lt few utf8 h room = (h, tt, omega arith)
  add_symbols-IsKnown names ((addr, sym) ∷ syms) self lt few (u, us) h room =
      let more = record (add_symbol self sym).1 {
        symbol_count = (add_symbol self sym).1.symbol_count + 1;
      } in
      let le = length-add_symbols syms more in
      let step =
        intern-IsInterned as_u32 sym self.symbols self.symbols_map no_symbol
          (λ n small. omega arith) u h (omega arith) in
      let (h', known, le') = add_symbols-IsKnown names syms more lt few us step.keeps room in
      let id : (add_symbol self sym).0 < length more.symbols =
        lt_of_get_elem? more.symbols (add_symbol self sym).0 sym step.at in
      (
        h',
        (new_item-IsKnown _ names _ _ lt few (omega (arith, id, le')) room, known),
        omega (arith, (length-intern as_u32 sym self.symbols self.symbols_map).0),
      )
