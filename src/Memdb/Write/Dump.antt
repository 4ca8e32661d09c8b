-- ===== src/Memdb/Write/Dump.antt =====
-- src/memdb/write.rs: a dump keeps what holds of the builder, from its start to `flush`.
use symbolserver.Prelude.{◌≤◌, ◌≡◌, inl, inr, refl, ap, ◌∙◌, arith}
use symbolserver.Prelude.{Bool, true, false, none, some, Option, List, [], ◌∷◌, length, All, any}
use symbolserver.Prelude.{length-append, Bool-cases, Option-cases}
use symbolserver.Prelude.Order.{◌=?◌, nat_ord, list_ord}
use mathlib.Core.Option.{some-injective}
use symbolserver.Errors.Laws.{>>=-middle}
use symbolserver.Errors.{Str, Result, ok, err, panic, undefined, ◌>>=◌}
use symbolserver.Text.{is_utf8}
use symbolserver.Sdk.{SdkInfo}
use symbolserver.Dsym.{MachObject, Object, Symbols, Variant, arch, symbols, iter}
use symbolserver.Memdb.Types.{Uuid, as_u16}
use symbolserver.Memdb.Write.{
  MemDbBuilder, new_builder, add_mapping, see_uuid, add_object_name, register_variant,
  write_object_variant, write_variants, variant_src, write_object,
}
use symbolserver.Memdb.Write.Flush.{write_objects}
use symbolserver.Memdb.Write.Invariant.{IsWritten, IsSmall}
use symbolserver.Memdb.Write.Interning.{length-intern, length-add_symbols}
use symbolserver.Memdb.Write.Steps.{
  new_builder-IsWritten, add_mapping-IsWritten, registered_lem, register_variant-IsWritten,
}

-- What a step comes to: the counts grow, and what holds of the builder still does; the description and the options
-- stay.
pub record Kept (a b : MemDbBuilder) : Type 0 where
  pub names_grow : length a.object_names ≤ length b.object_names
  pub symbols_grow : length a.symbols ≤ length b.symbols
  pub variants_grow : length a.variants ≤ length b.variants
  pub same_info : b.info ≡ a.info
  pub same_compress : b.compress ≡ a.compress
  pub keeps : IsWritten a → IsSmall b → IsWritten b

Kept-refl : (a : MemDbBuilder) → Kept a a
Kept-refl a = record {
  names_grow = omega arith;
  symbols_grow = omega arith;
  variants_grow = omega arith;
  same_info = refl;
  same_compress = refl;
  keeps = λ w s. w;
}

Kept-trans : {a b c : MemDbBuilder} → Kept a b → Kept b c → Kept a c
Kept-trans h k = record {
  names_grow = omega (arith, h.names_grow, k.names_grow);
  symbols_grow = omega (arith, h.symbols_grow, k.symbols_grow);
  variants_grow = omega (arith, h.variants_grow, k.variants_grow);
  same_info = k.same_info ∙ h.same_info;
  same_compress = k.same_compress ∙ h.same_compress;
  keeps = λ w s.
      k.keeps
        (h.keeps w (record {
          names_small = omega (arith, k.names_grow, s.names_small);
          symbols_small = omega (arith, k.symbols_grow, s.symbols_small);
          variants_small = omega (arith, k.variants_grow, s.variants_small);
        }))
        s;
}

-- What mach_object gives as text is text.
pub record HasTexts (lib : MachObject) : Type 0 where
  pub texts : (s : Symbols) → All (λ a. is_utf8 a.1 ≡ true) (iter lib s)

-- A UUID has 16 bytes, and a name is text.
pub record IsVariant (v : Variant) : Type 0 where
  pub uuid_sized : (uuid : Uuid) → v.uuid ≡ some uuid → length uuid ≡ 16
  pub name_utf8 : (name : Str) → v.name ≡ some name → is_utf8 name ≡ true

-- What the objects of an SDK are: a file name that is text, and variants.
abbrev pub IsEntry : Result (Str × Object) → Type 0
IsEntry (ok (filename, obj)) = (is_utf8 filename ≡ true) × All IsVariant obj.variants
IsEntry (err e) = Unit
IsEntry panic = Unit
IsEntry undefined = Unit

module _ (lib : MachObject) (lib_texts : HasTexts lib) where
  add_mapping-Kept :
      (src name : Str) (uuid : Uuid) (self : MemDbBuilder)
      → Kept self (add_mapping src name uuid self)
  add_mapping-Kept src name uuid self = record {
    names_grow = omega arith;
    symbols_grow = omega arith;
    variants_grow = omega arith;
    same_info = refl;
    same_compress = refl;
    keeps = λ w s. add_mapping-IsWritten src name uuid self w;
  }

  register_variant-Kept :
      (var : Variant) (uuid : Uuid) (src name : Str) (s : Symbols) (self : MemDbBuilder)
      → is_utf8 src ≡ true
      → length uuid ≡ 16
      → any (λ seen. seen =? uuid) self.variant_uuids_seen ≡ false
      → Kept self (
          register_variant var uuid src
            (iter lib s)
            (see_uuid uuid (add_mapping src name uuid self)))
  unfolding add_object_name
  register_variant-Kept var uuid src name s self utf8 sized fresh =
      let eq = registered_lem var uuid src name (iter lib s) self in
      record {
        names_grow = omega (
          arith,
          ap (λ (b : MemDbBuilder). length b.object_names) eq,
          length-intern as_u16 src self.object_names self.object_names_map,
        );
        symbols_grow = omega (
          arith,
          ap (λ (b : MemDbBuilder). length b.symbols) eq,
          length-add_symbols var.vmaddr _ (iter lib s)
              (add_object_name (see_uuid uuid (add_mapping src name uuid self)) src).1,
        );
        variants_grow = omega (
          arith,
          ap (λ (b : MemDbBuilder). length b.variants) eq,
          length-append self.variants (_ ∷ []),
        );
        same_info = ap (λ (b : MemDbBuilder). b.info) eq;
        same_compress = ap (λ (b : MemDbBuilder). b.compress) eq;
        keeps = λ w small.
            register_variant-IsWritten var uuid src name (iter lib s) self w utf8
              (lib_texts.texts s) sized fresh small;
      }

  write_object_variant-Kept :
      (obj : Object) (var : Variant) (uuid : Uuid) (src : Str) (self : MemDbBuilder) (new : Bool)
      (self' : MemDbBuilder)
      → is_utf8 src ≡ true
      → length uuid ≡ 16
      → write_object_variant lib obj var uuid src self ≡ ok (new, self')
      → Kept self self'
  unfolding write_object_variant
  write_object_variant-Kept obj var uuid src self new self' utf8 sized run =
      elim (Bool-cases (any (λ seen. seen =? uuid) self.variant_uuids_seen)) [
        | inl seen ↦
            let e : ok (false, add_mapping src (arch lib var.cputype var.cpusubtype) uuid self)
                ≡ ok (new, self') =
              rw (seen, write_object_variant) at run in
            let same : add_mapping src (arch lib var.cputype var.cpusubtype) uuid self ≡ self' =
              cc e in
            rw (← same) (add_mapping-Kept src (arch lib var.cputype var.cpusubtype) uuid self)
        | inr fresh ↦
            let (syms, found, e) =
              >>=-middle (symbols lib obj (arch lib var.cputype var.cpusubtype)) _ (new, self')
                (rw (fresh, write_object_variant) at run) in
            let same : register_variant var uuid src (iter lib syms)
                  (see_uuid uuid (add_mapping src (arch lib var.cputype var.cpusubtype) uuid self))
                ≡ self' =
              cc e in
            rw (← same) (
              register_variant-Kept var uuid src (arch lib var.cputype var.cpusubtype) syms self
                utf8 sized fresh)
      ]

  variant_src-utf8 :
      (var : Variant) (filename : Option Str) (src : Str)
      → ((name : Str) → filename ≡ some name → is_utf8 name ≡ true)
      → IsVariant var
      → variant_src lib var filename ≡ ok src
      → is_utf8 src ≡ true
  unfolding variant_src
  variant_src-utf8 var filename src utf8 v e = elim (Option-cases var.name) [
    | inr (name, is) ↦
        let e' : ok name ≡ ok src = rw (is, variant_src) at e in
        let same : name ≡ src = cc e' in rw (← same) (v.name_utf8 name is)
    | inl none_is ↦ elim (Option-cases filename) [
      | inl absent ↦
          let e' : panic ≡ ok src = rw (none_is, absent, variant_src) at e in absurd (cc e')
      | inr (name, is) ↦
          let e' : ok name ≡ ok src = rw (none_is, is, variant_src) at e in
          let same : name ≡ src = cc e' in rw (← same) (utf8 name is)
    ]
  ]

  -- One variant, with or without a UUID.
  one_variant-Kept :
      (obj : Object) (var : Variant) (src : Str) (self self' : MemDbBuilder) (u : Option Uuid)
      → ((uuid : Uuid) → u ≡ some uuid → length uuid ≡ 16)
      → is_utf8 src ≡ true
      → elim u [
        | none ↦ ok self
        | some uuid ↦ (do (_, b) ← write_object_variant lib obj var uuid src self; ok b)
      ]
        ≡ ok self'
      → Kept self self'
  one_variant-Kept obj var src self self' none sized utf8 run =
      let same : self ≡ self' = cc run in rw (← same) (Kept-refl self)
  one_variant-Kept obj var src self self' (some uuid) sized utf8 run =
      let ((new, b), step, e) =
        >>=-middle (write_object_variant lib obj var uuid src self) _ self' run in
      let same : b ≡ self' = cc e in
      rw (← same)
        (write_object_variant-Kept obj var uuid src self new b utf8 (sized uuid refl) step)

  write_variants-Kept :
      (obj : Object) (filename : Option Str) (vars : List Variant) (self self' : MemDbBuilder)
      → ((name : Str) → filename ≡ some name → is_utf8 name ≡ true)
      → All IsVariant vars
      → write_variants lib obj filename vars self ≡ ok self'
      → Kept self self'
  unfolding write_variants variant_src
  write_variants-Kept obj filename [] self self' utf8 h run =
      let same : self ≡ self' = cc run in rw (← same) (Kept-refl self)
  write_variants-Kept obj filename (var ∷ vars) self self' utf8 (v, vs) run =
      let (src, src_is, run₁) = >>=-middle (variant_src lib var filename) _ self' run in
      let (self₁, step, run₂) = >>=-middle _ (write_variants lib obj filename vars) self' run₁ in
      Kept-trans
        (one_variant-Kept obj var src self self₁ var.uuid v.uuid_sized
          (variant_src-utf8 var filename src utf8 v src_is) step)
        (write_variants-Kept obj filename vars self₁ self' utf8 vs run₂)

  pub write_objects-Kept :
      (objects : List (Result (Str × Object))) (self self' : MemDbBuilder)
      → All IsEntry objects
      → write_objects lib objects self ≡ ok self'
      → Kept self self'
  unfolding write_objects write_object
  write_objects-Kept [] self self' h run =
      let same : self ≡ self' = cc run in rw (← same) (Kept-refl self)
  write_objects-Kept (ok (filename, obj) ∷ objects) self self' ((utf8, vars), hs) run =
      let (self₁, step, run₁) =
        >>=-middle (write_object lib obj (some filename) self) (write_objects lib objects) self'
          run in
      Kept-trans
        (write_variants-Kept obj (some filename) obj.variants self self₁
          (λ name is. rw (← some-injective filename name is) utf8) vars step)
        (write_objects-Kept objects self₁ self' hs run₁)
  write_objects-Kept (err e ∷ objects) self self' (h, hs) run = absurd (cc run)
  write_objects-Kept (panic ∷ objects) self self' (h, hs) run = absurd (cc run)
  write_objects-Kept (undefined ∷ objects) self self' (h, hs) run = absurd (cc run)

  -- After objects were written to a new builder: row i of the UUIDs is that of variant i, no UUID
  -- has two rows, each variant's items are sorted by their addresses, and every id that an item has
  -- is that of a text. Conditions: the ids and the rows had room, the texts are UTF-8, and UUIDs
  -- have 16 bytes.
  pub write_objects-IsWritten :
      (info : SdkInfo) (compress : Bool) (objects : List (Result (Str × Object)))
      (self' : MemDbBuilder)
      → All IsEntry objects
      → write_objects lib objects (new_builder info compress) ≡ ok self'
      → IsSmall self'
      → IsWritten self'
  write_objects-IsWritten info compress objects self' h run small =
      (write_objects-Kept objects (new_builder info compress) self' h run).keeps
        (new_builder-IsWritten info compress) small
