-- ===== src/Dsym/Laws.antt =====
-- src/dsym.rs: which symbols a variant of an object has.
use symbolserver.Prelude.{ℕ, suc, take, false, ◌≤◌, ◌≡◌, refl, sym, ◌∙◌, arith, inl, inr}
use symbolserver.Prelude.{Bool, true, ◌&&◌, ◌==◌}
use symbolserver.Prelude.{some, List, [], ◌∷◌, ◌++◌, length, drop, get_elem?, All, any, Bool-cases}
use symbolserver.Prelude.{All-append, All-get, All-of_get, any-of_get}
use symbolserver.Prelude.Order.{nat_ord, list_ord}
use symbolserver.Errors.{Str, Result, ok}
use symbolserver.Bytes.{Bytes}
use symbolserver.Errors.Laws.{>>=-middle}
use symbolserver.Dsym.{
  MachFile, Member, mach, not_mach, FatArch, OFile, fat_file, mach_file, other_file, MachObject,
  Variant, Object, Symbols, variant_of, extract_variant, extract_members, extract_file, cursor,
  from_backing, arch, find_member, symbols_of_types, symbols,
}
use symbolserver.Dsym.Commands.{variant_of-types}

same_types : (a b c d : ℕ) → a ≡ c → b ≡ d → (a == c && b == d) ≡ true
same_types a b c d e f = ground arith

-- Everything that holds of the variants of all members of a fat file holds of what is extracted.
extract_members-All :
    (P : Variant → Type 0) (vs : List Variant) (files : List (FatArch × Member))
    → All P vs
    → All
        (λ (m : FatArch × Member). (file : MachFile) → m.1 ≡ mach file → P (variant_of file))
        files
    → All P (extract_members vs files)
unfolding extract_members extract_variant
extract_members-All P vs [] h k = h
extract_members-All P vs ((a, mach file) ∷ files) h (k, ks) =
    extract_members-All P (vs ++ variant_of file ∷ []) files
      (All-append P vs (variant_of file ∷ []) h (k file refl, tt)) ks
extract_members-All P vs ((a, not_mach) ∷ files) h (k, ks) = extract_members-All P vs files h ks

-- A fat file whose table of architectures agrees with its members, all within the file.
pub record IsConsistent (backing : Bytes) (m : FatArch × Member) : Type 0 where
  pub inside : m.0.offset ≤ length backing
  pub agrees :
      (file : MachFile)
      → m.1 ≡ mach file
      → (m.0.cputype ≡ file.cputype) × (m.0.cpusubtype ≡ file.cpusubtype)

abbrev pub IsConsistentFile : Bytes → OFile → Type 0
IsConsistentFile backing (fat_file files) = All (IsConsistent backing) files
IsConsistentFile backing (mach_file file) = Unit
IsConsistentFile backing other_file = Unit

pub of_types : ℕ × ℕ → FatArch × Member → Bool
of_types types m = m.0.cputype == types.0 && m.0.cpusubtype == types.1

-- The symbols are read from the first member that the table lists for the types, at its offset.
pub record IsFirst (backing : Bytes) (types : ℕ × ℕ) (files : List (FatArch × Member)) (s : Symbols)
    : Type 0 where
  pub position : ℕ
  pub listed : FatArch
  pub at : get_elem? files position ≡ some (listed, s.file)
  pub matches : (listed.cputype ≡ types.0) × (listed.cpusubtype ≡ types.1)
  pub before : any (of_types types) (take position files) ≡ false
  pub reads : s.cursor ≡ drop listed.offset backing

-- The file and the bytes of the symbols.
abbrev pub Reads : Bytes → OFile → ℕ × ℕ → Symbols → Type 0
Reads backing (fat_file files) types s = IsFirst backing types files s
Reads backing (mach_file file) types s = (s.file ≡ mach file) × (s.cursor ≡ backing)
Reads backing other_file types s = ⊥

-- Symbols of the architecture that is asked for, read from its member of the file.
pub record Gives (backing : Bytes) (ofile : OFile) (types : ℕ × ℕ) (r : Result Symbols)
    : Type 0 where
  pub given : Symbols
  pub is_ok : r ≡ ok given
  pub labels : (given.cputype ≡ types.0) × (given.cpusubtype ≡ types.1)
  pub source : Reads backing ofile types given

module _ (lib : MachObject) (backing : Bytes) where
  cursor_inside :
      (offset : ℕ) → offset ≤ length backing → cursor backing offset ≡ ok (drop offset backing)
  unfolding cursor
  cursor_inside offset le = ground arith

  find_member-any :
      (types : ℕ × ℕ) (files : List (FatArch × Member))
      → All (IsConsistent backing) files
      → any (of_types types) files ≡ true
      → (r : Result Symbols) × (find_member lib backing types files ≡ some r)
        × Gives backing (fat_file files) types r
  unfolding find_member of_types
  find_member-any types [] h found = absurd (cc found)
  find_member-any types ((a, file) ∷ files) (c, cs) found =
      elim (Bool-cases (a.cputype == types.0 && a.cpusubtype == types.1)) [
        | inl e ↦
            let first : a.cputype ≡ types.0 = ground arith in
            let second : a.cpusubtype ≡ types.1 = ground arith in
            rw (e, find_member, cursor_inside a.offset c.inside)
              (
                _,
                refl,
                record {
                  given = _;
                  is_ok = refl;
                  labels = (first, second);
                  source = record {
                    position = 0;
                    listed = a;
                    at = refl;
                    matches = (first, second);
                    before = refl;
                    reads = refl;
                  };
                },
              )
        | inr e ↦
            let later : any (of_types types) files ≡ true = rw (e, of_types) at found in
            let (r, found', g) = find_member-any types files cs later in
            rw (e, find_member)
              (
                r,
                found',
                record {
                  given = g.given;
                  is_ok = g.is_ok;
                  labels = g.labels;
                  source = record {
                    position = suc g.source.position;
                    listed = g.source.listed;
                    at = g.source.at;
                    matches = g.source.matches;
                    before = rw (e, of_types) g.source.before;
                    reads = g.source.reads;
                  };
                },
              )
      ]

  -- The variants of a file have symbols under any name for their types.
  extract_file-Gives :
      (ofile : OFile) (vs : List Variant) (name : Str)
      → IsConsistentFile backing ofile
      → All
          (λ (v : Variant).
            Gives backing ofile
              (v.cputype, v.cpusubtype)
              (symbols_of_types lib
                (record { backing = backing; ofile = ofile; variants = vs })
                name
                (v.cputype, v.cpusubtype)))
          (extract_file ofile)
  unfolding extract_file extract_variant symbols_of_types of_types
  extract_file-Gives other_file vs name h = tt
  extract_file-Gives (mach_file file) vs name h =
      let (first, second) = variant_of-types file in
      (
        rw
            (
              same_types file.cputype file.cpusubtype (variant_of file).cputype
                  (variant_of file).cpusubtype (sym first) (sym second),
              symbols_of_types,
              cursor_inside 0 (omega arith),
            )
            (record {
              given = _;
              is_ok = refl;
              labels = (sym first, sym second);
              source = (refl, refl);
            }),
        tt,
      )
  extract_file-Gives (fat_file files) vs name h = extract_members-All _ [] files tt (
      All-of_get _ files (λ i m at file is.
        let (first, second) = variant_of-types file in
        let (first', second') = (All-get (IsConsistent backing) files i m h at).agrees file is in
        let types : ℕ × ℕ = ((variant_of file).cputype, (variant_of file).cpusubtype) in
        let here : of_types types m ≡ true =
          same_types m.0.cputype m.0.cpusubtype types.0 types.1 (first' ∙ sym first)
            (second' ∙ sym second) in
        let found : any (of_types types) files ≡ true =
          any-of_get (of_types types) files i m at here in
        let (r, e, gives) = find_member-any types files h found in rw (e, symbols_of_types) gives))

-- Every variant of an object that was read has symbols of its own architecture, under the name of
-- it, if that name stands for the types of the variant and, in a fat file, the table of the
-- architectures agrees with the members and points into the file. The symbols are those of the
-- file itself, from its first byte on, or, in a fat file, of the first member that the table lists
-- for these types, from the offset of this member on.
pub symbols-variant :
    (lib : MachObject) (backing : Bytes) (obj : Object) (i : ℕ) (v : Variant)
    → from_backing lib backing ≡ ok obj
    → IsConsistentFile backing obj.ofile
    → get_elem? obj.variants i ≡ some v
    → lib.arch_types (arch lib v.cputype v.cpusubtype) ≡ some (v.cputype, v.cpusubtype)
    → Gives backing obj.ofile
        (v.cputype, v.cpusubtype)
        (symbols lib obj (arch lib v.cputype v.cpusubtype))
unfolding from_backing symbols
symbols-variant lib backing obj i v read h at named =
    let (ofile, parsed, e) = >>=-middle (lib.parse backing) _ obj read in
    let is : record { backing = backing; ofile = ofile; variants = extract_file ofile } ≡ obj =
      cc e in
    let all =
      extract_file-Gives lib backing ofile (extract_file ofile) (arch lib v.cputype v.cpusubtype)
        (rw (← is) at h) in
    rw (named, symbols, ← is)
      (All-get
        (λ (w : Variant).
          Gives backing ofile (w.cputype, w.cpusubtype)
            (symbols_of_types lib
              (record { backing = backing; ofile = ofile; variants = extract_file ofile })
              (arch lib v.cputype v.cpusubtype) (w.cputype, w.cpusubtype)))
        (extract_file ofile) i v all (rw (← is) at at))
