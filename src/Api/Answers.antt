-- ===== src/Api/Answers.antt =====
-- src/api/handlers.rs: what the lookups of a request come to.
use symbolserver.Prelude.{◌≡◌, refl, ap, ◌∙◌}
use symbolserver.Prelude.{Option, none, some, List, [], ◌∷◌, Option-cases, inl, inr}
use symbolserver.Prelude.Order.{nat_ord, list_ord}
use symbolserver.Prelude.Map
use symbolserver.Prelude.Map.{Map}
use symbolserver.Errors.{Str, Result, ok, err, panic, undefined, ◌>>=◌}
use symbolserver.Bytes.{Bytes}
use symbolserver.Memdb.Read.{MemDb, Symbol}
use symbolserver.Memdb.Lookup.{lookup_by_uuid, lookup_by_object_name}
use symbolserver.Sdk.{SdkInfo, sdk_ord}
use symbolserver.Memdb.Stash.State.{SdkSyncState, World, M, after, pure}
use symbolserver.Memdb.Stash.Queries.{get_memdb}
use symbolserver.Memdb.Stash.Serving.{served, Agrees, Agrees-insert, Serves, Opens, get_memdb-Opens}
use symbolserver.Api.Handlers.{SymbolQuery, cached_memdb, first_match, answer, answers}

-- The first database that has an answer, in the order of the SDKs, or the first failure.
abbrev pub first_found :
    (SdkInfo → Result MemDb)
    → (MemDb → Result (Option Symbol))
    → List SdkInfo
    → Result (Option Symbol)
first_found db lookup [] = ok none
first_found db lookup (i ∷ is) =
    let rest = first_found db lookup is in
    do m ← db i; found ← lookup m; elim found [ some sym ↦ ok (some sym) | none ↦ rest ]

-- What one query comes to without any cache.
abbrev pub found_for :
    (SdkInfo → Result MemDb) → Str → List SdkInfo → SymbolQuery → Result (Option Symbol)
found_for db cpu_name infos symq = elim symq.object_uuid [
  | some uuid ↦ first_found db (λ m. lookup_by_uuid m uuid symq.addr) infos
  | none ↦ elim symq.object_name [
    | some name ↦ first_found db (λ m. lookup_by_object_name m name cpu_name symq.addr) infos
    | none ↦ ok none
  ]
]

-- All answers, or the first failure.
abbrev pub all_found :
    (SymbolQuery → Result (Option Symbol)) → List SymbolQuery → Result (List (Option Symbol))
all_found f [] = ok []
all_found f (q ∷ qs) = do sym ← f q; syms ← all_found f qs; ok (sym ∷ syms)

module _ (local : SdkSyncState) (files : Map Str Bytes) where
  -- An outcome with the cache of the request next to its value.
  record Comes {A : Type 0} (r : Result A) (out : Result (A × Map SdkInfo MemDb) × World)
      : Type 0 where
    cache : Map SdkInfo MemDb
    value : out.0 ≡ (do a ← r; ok (a, cache))
    agrees : Agrees (served local files) cache
    serves : Serves local files out.1

  -- A step that hands its value and the cache on.
  after-Comes :
      {A B : Type 0} (r : Result A) (f : A → Result B)
      (out : Result (A × Map SdkInfo MemDb) × World)
      (g : A × Map SdkInfo MemDb → M (B × Map SdkInfo MemDb))
      → Comes r out
      → ((a : A) (c : Map SdkInfo MemDb) (w : World)
          → Agrees (served local files) c
          → Serves local files w
          → Comes (f a) (g (a, c) w))
      → Comes (r >>= f) (after g out)
  after-Comes r f (o, w) g h k = rw h.value (go r)
    where
      go : (r : Result _) → Comes (r >>= f) (after g ((do a ← r; ok (a, h.cache)), w))
      go (ok a) = k a h.cache w h.agrees h.serves
      go (err e) = record { cache = h.cache; value = refl; agrees = h.agrees; serves = h.serves }
      go panic = record { cache = h.cache; value = refl; agrees = h.agrees; serves = h.serves }
      go undefined = record { cache = h.cache; value = refl; agrees = h.agrees; serves = h.serves }

  cached_memdb-Comes :
      (cache : Map SdkInfo MemDb) (i : SdkInfo) (w : World)
      → Agrees (served local files) cache
      → Serves local files w
      → Comes (served local files i) (cached_memdb cache i w)
  unfolding cached_memdb
  cached_memdb-Comes cache i w agrees s = elim (Option-cases (Map.get i cache)) [
    | inr (m, e) ↦
        rw (cached_memdb, e)
          (record { cache = cache; value = rw (agrees i m e) refl; agrees = agrees; serves = s })
    | inl e ↦ rw (cached_memdb, e) (go (get_memdb i w) (get_memdb-Opens local files i w s))
  ]
    where
      insert :
          (r : Result MemDb) (w : World)
          → served local files i ≡ r
          → Serves local files w
          → Comes r (after (λ m. pure (m, Map.insert i m cache)) (r, w))
      insert (ok m) w e s = record {
        cache = Map.insert i m cache;
        value = refl;
        agrees = Agrees-insert (served local files) cache i m agrees e;
        serves = s;
      }
      insert (err x) w e s = record { cache = cache; value = refl; agrees = agrees; serves = s }
      insert panic w e s = record { cache = cache; value = refl; agrees = agrees; serves = s }
      insert undefined w e s = record { cache = cache; value = refl; agrees = agrees; serves = s }

      go :
          (out : Result MemDb × World)
          → Opens local files i out
          → Comes (served local files i) (after (λ m. pure (m, Map.insert i m cache)) out)
      go (o, w) h = rw h.value (insert (served local files i) w refl h.serves)

  first_match-Comes :
      (lookup : MemDb → Result (Option Symbol)) (cache : Map SdkInfo MemDb) (is : List SdkInfo)
      (w : World)
      → Agrees (served local files) cache
      → Serves local files w
      → Comes (first_found (served local files) lookup is) (first_match lookup cache is w)
  unfolding first_match
  first_match-Comes lookup cache [] w agrees s = record {
    cache = cache;
    value = refl;
    agrees = agrees;
    serves = s;
  }
  first_match-Comes lookup cache (i ∷ is) w agrees s =
      after-Comes (served local files i) _ (cached_memdb cache i w) _
        (cached_memdb-Comes cache i w agrees s)
        (λ m c v agrees' s'.
          found c v agrees' s' (first_match-Comes lookup c is v agrees' s') (lookup m))
    where
      found :
          (c : Map SdkInfo MemDb) (v : World)
          → Agrees (served local files) c
          → Serves local files v
          → Comes (first_found (served local files) lookup is) (first_match lookup c is v)
          → (r : Result (Option Symbol))
          → Comes
              (do
                sym ← r
                elim sym [
                  | some sym ↦ ok (some sym)
                  | none ↦ first_found (served local files) lookup is
                ])
              (after
                (λ (sym : Option Symbol). elim sym [
                  | some sym ↦ pure (some sym, c)
                  | none ↦ first_match lookup c is
                ])
                (r, v))
      found c v agrees s ih (ok (some sym)) = record {
        cache = c;
        value = refl;
        agrees = agrees;
        serves = s;
      }
      found c v agrees s ih (ok none) = ih
      found c v agrees s ih (err x) = record {
        cache = c;
        value = refl;
        agrees = agrees;
        serves = s;
      }
      found c v agrees s ih panic = record { cache = c; value = refl; agrees = agrees; serves = s }
      found c v agrees s ih undefined = record {
        cache = c;
        value = refl;
        agrees = agrees;
        serves = s;
      }

  answer-Comes :
      (cpu_name : Str) (infos : List SdkInfo) (symq : SymbolQuery) (cache : Map SdkInfo MemDb)
      (w : World)
      → Agrees (served local files) cache
      → Serves local files w
      → Comes
          (found_for (served local files) cpu_name infos symq)
          (answer cpu_name infos symq cache w)
  unfolding answer
  answer-Comes cpu_name infos symq cache w agrees s = elim (Option-cases symq.object_uuid) [
    | inr (uuid, u) ↦
        rw (u, answer, found_for)
          (first_match-Comes (λ m. lookup_by_uuid m uuid symq.addr) cache infos w agrees s)
    | inl u ↦ elim (Option-cases symq.object_name) [
      | inr (name, n) ↦
          rw (u, n, answer, found_for)
            (first_match-Comes (λ m. lookup_by_object_name m name cpu_name symq.addr) cache infos w
              agrees s)
      | inl n ↦
          rw (u, n, answer, found_for)
            (record { cache = cache; value = refl; agrees = agrees; serves = s })
    ]
  ]

  outcome-pure :
      {A B : Type 0} (f : A → B) (out : Result A × World)
      → (after (λ a. pure (f a)) out).0 ≡ (do a ← out.0; ok (f a))
  outcome-pure f (ok a, w) = refl
  outcome-pure f (err e, w) = refl
  outcome-pure f (panic, w) = refl
  outcome-pure f (undefined, w) = refl

  -- The lookups of a request come query by query to the first answer among the SDKs in their order,
  -- or to the first failure, with the databases of the files, whichever of them are loaded already.
  -- The conditions: the state can be read, and the databases that are loaded, in the stash or
  -- in the cache of the request, are those of the files.
  pub answers-all_found :
      (cpu_name : Str) (infos : List SdkInfo) (symqs : List SymbolQuery) (cache : Map SdkInfo MemDb)
      (w : World)
      → Agrees (served local files) cache
      → Serves local files w
      → (answers cpu_name infos symqs cache w).0
        ≡ all_found (found_for (served local files) cpu_name infos) symqs
  unfolding answers
  answers-all_found cpu_name infos [] cache w agrees s = refl
  answers-all_found cpu_name infos (q ∷ qs) cache w agrees s =
      go (answer cpu_name infos q cache w) (answer-Comes cpu_name infos q cache w agrees s)
        (λ c v agrees' s'. answers-all_found cpu_name infos qs c v agrees' s')
    where
      go :
          (out : Result (Option Symbol × Map SdkInfo MemDb) × World)
          → Comes (found_for (served local files) cpu_name infos q) out
          → ((c : Map SdkInfo MemDb) (v : World)
              → Agrees (served local files) c
              → Serves local files v
              → (answers cpu_name infos qs c v).0
                ≡ all_found (found_for (served local files) cpu_name infos) qs)
          → (after
              (λ ((sym, c) : Option Symbol × Map SdkInfo MemDb) (v : World).
                after (λ syms v'. (ok (sym ∷ syms), v')) (answers cpu_name infos qs c v))
              out).0
            ≡ all_found (found_for (served local files) cpu_name infos) (q ∷ qs)
      go (o, v) h ih = rw h.value (by_result (found_for (served local files) cpu_name infos q))
        where
          by_result :
              (r : Result (Option Symbol))
              → (after
                  (λ ((sym, c) : Option Symbol × Map SdkInfo MemDb) (v : World).
                    after (λ syms v'. (ok (sym ∷ syms), v')) (answers cpu_name infos qs c v))
                  ((do a ← r; ok (a, h.cache)), v)).0
                ≡ (do
                  sym ← r
                  syms ← all_found (found_for (served local files) cpu_name infos) qs
                  ok (sym ∷ syms))
          by_result (ok sym) =
              outcome-pure (λ syms. sym ∷ syms) (answers cpu_name infos qs h.cache v)
              ∙ ap (λ r. (do syms ← r; ok (sym ∷ syms))) (ih h.cache v h.agrees h.serves)
          by_result (err e) = refl
          by_result panic = refl
          by_result undefined = refl
