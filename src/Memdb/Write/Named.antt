-- ===== src/Memdb/Write/Named.antt =====
-- src/memdb/write.rs: the items that `write_object_variant` makes of the symbols of a variant.
use symbolserver.Prelude.{ℕ, ◌+◌, ◌-◌, ◌%◌, ◌^◌, ◌≤◌, ◌≡◌, inl, inr, refl, ◌∙◌, arith}
use symbolserver.Prelude.{true, Option, some, List, [], ◌∷◌, length, get_elem?, All, map}
use symbolserver.Prelude.{lt_of_get_elem?, get_elem?-append, Option-cases}
use symbolserver.Prelude.Order.{nat_ord, list_ord}
use symbolserver.Prelude.Map
use symbolserver.Errors.{Str}
use symbolserver.Text.{is_utf8}
use symbolserver.Memdb.Types.{IndexItem, new_item, item_addr, no_symbol, as_u32}
use symbolserver.Memdb.Types.Laws.{item_addr-new_item}
use symbolserver.Memdb.Write.{MemDbBuilder, intern, add_symbol, add_symbols}
use symbolserver.Memdb.Write.Invariant.{IsInterned}
use symbolserver.Memdb.Write.Interning.{intern-IsInterned, length-add_symbols}

-- Ids that were handed out keep their texts.
intern-keeps :
    (width : ℕ → ℕ) (s : Str) (texts : List Str) (ids : Map.Map Str ℕ) (i : ℕ) (t : Str)
    → get_elem? texts i ≡ some t
    → get_elem? (intern width s texts ids).1.0 i ≡ some t
unfolding intern
intern-keeps width s texts ids i t at = elim (Option-cases (Map.get s ids)) [
  | inl e ↦ rw (e, intern) (get_elem?-append texts (s ∷ []) i (lt_of_get_elem? texts i t at) ∙ at)
  | inr (id, e) ↦ rw (e, intern) at
]

-- What an item says with the texts of the builder: its address and its symbol.
abbrev pub named : List Str → IndexItem → ℕ × Option Str
named texts item = (item_addr item, get_elem? texts item.sym_id)

-- What a symbol of the image comes to: its address from the image's start on, in 48 bits.
abbrev pub placed : ℕ → ℕ × Str → ℕ × Option Str
placed vmaddr (addr, name) = ((addr + 2 ^ 64 - vmaddr) % 2 ^ 64 % 2 ^ 48, some name)

module _ (vmaddr src_id : ℕ) where
  add_symbols-keeps :
      (syms : List (ℕ × Str)) (self : MemDbBuilder) (i : ℕ) (t : Str)
      → get_elem? self.symbols i ≡ some t
      → get_elem? (add_symbols vmaddr src_id syms self).1.symbols i ≡ some t
  unfolding add_symbols add_symbol
  add_symbols-keeps [] self i t at = at
  add_symbols-keeps ((addr, name) ∷ syms) self i t at =
      add_symbols-keeps syms
        (record (add_symbol self name).1 {
          symbol_count = (add_symbol self name).1.symbol_count + 1;
        })
        i t (intern-keeps as_u32 name self.symbols self.symbols_map i t at)

  -- The items that are made of the symbols of a variant say of each, in order, where it is in the
  -- image, in 48 bits, and what it is called. Conditions: the symbol ids have room for all, the names
  -- are UTF-8, and the map of the ids agrees with the list of the symbols.
  pub map-add_symbols :
      (syms : List (ℕ × Str)) (self : MemDbBuilder)
      → All (λ s. is_utf8 s.1 ≡ true) syms
      → IsInterned self.symbols self.symbols_map
      → length (add_symbols vmaddr src_id syms self).1.symbols ≤ no_symbol
      → map
          (named (add_symbols vmaddr src_id syms self).1.symbols)
          (add_symbols vmaddr src_id syms self).0
        ≡ map (placed vmaddr) syms
  unfolding add_symbols add_symbol new_item item_addr
  map-add_symbols [] self utf8 h room = refl
  map-add_symbols ((addr, name) ∷ syms) self (u, us) h room =
      let more = record (add_symbol self name).1 {
        symbol_count = (add_symbol self name).1.symbol_count + 1;
      } in
      let le = length-add_symbols vmaddr src_id syms more in
      let step =
        intern-IsInterned as_u32 name self.symbols self.symbols_map no_symbol
          (λ n small. omega arith) u h (omega arith) in
      let at = add_symbols-keeps syms more (add_symbol self name).0 name step.at in
      let addr_kept =
        (item_addr-new_item ((addr + 2 ^ 64 - vmaddr) % 2 ^ 64) src_id
          (some (add_symbol self name).0)).0 in
      λ i. (addr_kept i, at i) ∷ map-add_symbols syms more us step.keeps room i
