-- ===== src/Sdk/Objects/Laws.antt =====
-- src/sdk.rs: the iterator against a list of what the files of the source give, and the loop of
-- the dump that it drives.
use symbolserver.Prelude.{ℕ, zero, suc, ◌+◌, ◌-◌, ◌≤◌, ◌<◌, ◌≡◌, refl, ap, ◌∙◌, arith, inl, inr}
use symbolserver.Prelude.{Bool, leb, Bool-cases, if◌then◌else◌}
use symbolserver.Prelude.{Option, none, some, List, [], ◌∷◌, ◌++◌}
use symbolserver.Errors.{Str, Result, ok, err, panic, undefined, ◌>>=◌}
use symbolserver.Errors.Laws.{>>=-middle}
use symbolserver.Bytes.{Bytes}
use symbolserver.Dsym.{MachObject, Object}
use symbolserver.Memdb.Write.{MemDbBuilder, new_builder, write_object}
use symbolserver.Memdb.Write.Flush.{write_objects, flush, dump_memdb}
use symbolserver.Sdk.Objects.{
  ZipFile, ZipArchive, DirEntry, FileSystem, ObjectIterSource, zip, dir, Turn, continue_loop,
  return_item, iter_try, is_ok, remaining, file_count, read_zip_file, read_dir_entry, turn,
  next_loop, next, process_objects, Sdk, objects, sdk_dump_memdb, source_from_path,
}

-- What a file gives: at most one object, or the error that it ends with.
unfoldable pub item_of : Turn → List (Result (Str × Object))
item_of continue_loop = []
item_of (return_item item) = item ∷ []

-- The builder without the position of the bar.
abbrev builder_of : Result (MemDbBuilder × ℕ) → Result MemDbBuilder
builder_of r = r >>= λ x. ok x.0

-- The position that a loop ends with.
abbrev position : Result (MemDbBuilder × ℕ) → ℕ
position (ok x) = x.1
position (err e) = 0
position panic = 0
position undefined = 0

-- A source that is opened for a path holds no more files than are counted.
remaining-source_from_path :
    (fs : FileSystem) (path : Str) (s : ObjectIterSource)
    → source_from_path fs path ≡ ok s
    → remaining s ≤ file_count fs s
unfolding source_from_path
remaining-source_from_path fs path s h =
    let (md, _, h₁) =
      >>=-middle (fs.metadata path)
        (λ md.
          if md.is_file
          then (do f ← fs.open_file path; archive ← fs.zip_archive f; ok (zip archive 0))
          else ok (dir path (fs.walk_dir path)))
        s h in
    elim (Bool-cases md.is_file) [
      | inl file ↦
          let h₂ : (fs.open_file path >>= λ f. fs.zip_archive f >>= λ a. ok (zip a 0)) ≡ ok s =
            rw file at h₁ in
          let (f, _, h₃) =
            >>=-middle (fs.open_file path) (λ f. fs.zip_archive f >>= λ a. ok (zip a 0)) s h₂ in
          let (a, _, h₄) = >>=-middle (fs.zip_archive f) (λ a. ok (zip a 0)) s h₃ in
          let same : zip a 0 ≡ s = cc h₄ in rw (← same) (unfold remaining file_count in omega arith)
      | inr not_file ↦
          let h₂ : ok (dir path (fs.walk_dir path)) ≡ ok s = rw not_file at h₁ in
          let same : dir path (fs.walk_dir path) ≡ s = cc h₂ in
          rw (← same) (unfold remaining file_count in omega arith)
    ]

module _ (lib : MachObject) where
  -- The files of an archive, as many as are counted, from an index on.
  unfoldable pub archive_items : ZipArchive → ℕ → ℕ → List (Result (Str × Object))
  unfolding item_of
  archive_items archive zero idx = []
  archive_items archive (suc n) idx =
      item_of (iter_try (archive.by_index idx) (read_zip_file lib))
      ++ archive_items archive n (suc idx)

  unfoldable pub walk_items : Str → List (Result DirEntry) → List (Result (Str × Object))
  unfolding item_of
  walk_items path [] = []
  walk_items path (dent ∷ rest) =
      item_of (iter_try dent (read_dir_entry lib path)) ++ walk_items path rest

  -- What every file of the source gives, in the order of the files.
  unfoldable pub items : ObjectIterSource → List (Result (Str × Object))
  unfolding archive_items walk_items
  items (zip archive idx) = archive_items archive (archive.len - idx) idx
  items (dir path entries) = walk_items path entries

  -- What a turn says of the items: it ends a source that has none, or it takes one file, or it
  -- fails at the first one.
  TurnSays : ObjectIterSource → Option (Turn × ObjectIterSource) → Type 0
  TurnSays s none = items s ≡ []
  TurnSays s (some (continue_loop, s')) = (items s ≡ items s') × (remaining s ≡ suc (remaining s'))
  TurnSays s (some (return_item (ok a), s')) =
      (items s ≡ ok a ∷ items s') × (remaining s ≡ suc (remaining s'))
  TurnSays s (some (return_item (err e), s')) =
      (rest : List (Result (Str × Object))) × (items s ≡ err e ∷ rest)
  TurnSays s (some (return_item panic, s')) =
      (rest : List (Result (Str × Object))) × (items s ≡ panic ∷ rest)
  TurnSays s (some (return_item undefined, s')) =
      (rest : List (Result (Str × Object))) × (items s ≡ undefined ∷ rest)

  -- A file that is taken, with its outcome.
  took :
      (s s' : ObjectIterSource) (t : Turn)
      → items s ≡ item_of t ++ items s'
      → remaining s ≡ suc (remaining s')
      → TurnSays s (some (t, s'))
  unfolding TurnSays item_of
  took s s' continue_loop e r = (e, r)
  took s s' (return_item (ok a)) e r = (e, r)
  took s s' (return_item (err x)) e r = (items s', e)
  took s s' (return_item panic) e r = (items s', e)
  took s s' (return_item undefined) e r = (items s', e)

  -- The items of an archive that has a file at the index.
  items-zip :
      (archive : ZipArchive) (idx : ℕ)
      → idx < archive.len
      → items (zip archive idx)
        ≡ item_of (iter_try (archive.by_index idx) (read_zip_file lib))
          ++ items (zip archive (suc idx))
  unfolding items archive_items
  items-zip archive idx h =
      let less : archive.len - idx ≡ suc (archive.len - suc idx) = omega arith in
      ap (λ n. archive_items archive n idx) less

  -- The same, with the answer of `by_index`.
  turn_zip :
      (archive : ZipArchive) (idx : ℕ) (opened : Result ZipFile)
      → archive.by_index idx ≡ opened
      → idx < archive.len
      → TurnSays (zip archive idx) (
          some (
            iter_try opened (read_zip_file lib),
            zip archive (if is_ok opened then suc idx else idx),
          ))
  unfolding TurnSays iter_try is_ok item_of
  turn_zip archive idx (ok f) e h =
      took (zip archive idx) (zip archive (suc idx)) (read_zip_file lib f)
        (items-zip archive idx h ∙ rw e refl) (unfold remaining in omega arith)
  turn_zip archive idx (err x) e h =
      (items (zip archive (suc idx)), items-zip archive idx h ∙ rw e refl)
  turn_zip archive idx panic e h =
      (items (zip archive (suc idx)), items-zip archive idx h ∙ rw e refl)
  turn_zip archive idx undefined e h =
      (items (zip archive (suc idx)), items-zip archive idx h ∙ rw e refl)

  turn_lem : (s : ObjectIterSource) → TurnSays s (turn lib s)
  unfolding turn
  turn_lem (zip archive idx) = elim (Bool-cases (leb archive.len idx)) [
    | inl over ↦ rw over (
        let none_left : archive.len - idx ≡ 0 = ground arith in
        unfold TurnSays items archive_items in ap (λ n. archive_items archive n idx) none_left)
    | inr inside ↦ rw inside (turn_zip archive idx (archive.by_index idx) refl (ground arith))
  ]
  turn_lem (dir path []) = unfold TurnSays items walk_items in refl
  turn_lem (dir path (dent_res ∷ rest)) =
      took (dir path (dent_res ∷ rest)) (dir path rest)
        (iter_try dent_res (read_dir_entry lib path)) (unfold items walk_items in refl)
        (unfold remaining in refl)

  -- What `next` says of the items, from the offset that it starts with: there are none; or the
  -- first one is handed out, with the count of the files that were looked at.
  pub NextSays :
      ℕ → ObjectIterSource → Option (Result (ℕ × (Str × Object))) × ObjectIterSource → Type 0
  NextSays offset s (none, s') = items s ≡ []
  NextSays offset s (some (ok (o, a)), s') =
      (items s ≡ ok a ∷ items s')
      × (o + remaining s' ≡ offset + remaining s)
      × (remaining s' < remaining s)
  NextSays offset s (some (err e), s') =
      (rest : List (Result (Str × Object))) × (items s ≡ err e ∷ rest)
  NextSays offset s (some panic, s') =
      (rest : List (Result (Str × Object))) × (items s ≡ panic ∷ rest)
  NextSays offset s (some undefined, s') =
      (rest : List (Result (Str × Object))) × (items s ≡ undefined ∷ rest)

  -- A file without an object counts, and nothing else changes.
  skipped :
      (offset : ℕ) (s s₁ : ObjectIterSource) (r : Option (Result (ℕ × (Str × Object))))
      (s' : ObjectIterSource)
      → items s ≡ items s₁
      → remaining s ≡ suc (remaining s₁)
      → NextSays (suc offset) s₁ (r, s')
      → NextSays offset s (r, s')
  unfolding NextSays
  skipped offset s s₁ none s' e m h = e ∙ h
  skipped offset s s₁ (some (ok (o, a))) s' e m (h, sum, less) =
      (e ∙ h, omega (arith, sum, m), omega (arith, less, m))
  skipped offset s s₁ (some (err x)) s' e m (rest, h) = (rest, e ∙ h)
  skipped offset s s₁ (some panic) s' e m (rest, h) = (rest, e ∙ h)
  skipped offset s s₁ (some undefined) s' e m (rest, h) = (rest, e ∙ h)

  next_loop_lem :
      (fuel offset : ℕ) (s : ObjectIterSource)
      → remaining s < fuel
      → NextSays offset s (next_loop lib fuel offset s)
  unfolding next_loop NextSays TurnSays
  next_loop_lem zero offset s h = absurd (omega arith)
  next_loop_lem (suc fuel) offset s h =
      by_turn (next_loop_lem fuel (suc offset)) (turn lib s) (turn_lem s)
    where
      by_turn :
          ((s' : ObjectIterSource)
            → remaining s' < fuel
            → NextSays (suc offset) s' (next_loop lib fuel (suc offset) s'))
          → (t : Option (Turn × ObjectIterSource)) → TurnSays s t
          → NextSays offset s (elim t [
            | none ↦ (none, s)
            | some (continue_loop, s') ↦ next_loop lib fuel (suc offset) s'
            | some (return_item item, s') ↦ (some (item >>= λ a. ok (suc offset, a)), s')
          ])
      by_turn ih none k = k
      by_turn ih (some (continue_loop, s')) (e, m) =
          let r : Option (Result (ℕ × (Str × Object))) × ObjectIterSource =
            next_loop lib fuel (suc offset) s' in
          skipped offset s s' r.0 r.1 e m (ih s' (omega arith))
      by_turn ih (some (return_item (ok a), s')) (e, m) = (e, omega arith, omega arith)
      by_turn ih (some (return_item (err x), s')) k = k
      by_turn ih (some (return_item panic, s')) k = k
      by_turn ih (some (return_item undefined, s')) k = k

  -- An item that `next` returns is what the first file that gives anything gives, with the number
  -- of files that were looked at; `next` returns `None` only when no file left gives anything.
  pub next-items : (s : ObjectIterSource) → NextSays 0 s (next lib s)
  unfolding next
  next-items s = next_loop_lem (suc (remaining s)) 0 s (omega arith)

  -- The body of the loop of the dump, behind `next`.
  abbrev loop_body :
      ℕ
      → ℕ
      → MemDbBuilder
      → Option (Result (ℕ × (Str × Object))) × ObjectIterSource
      → Result (MemDbBuilder × ℕ)
  loop_body fuel pos self r = elim r.0 [
    | none ↦ ok (self, pos)
    | some res ↦ do
      (offset, (filename, obj)) ← res
      self' ← write_object lib obj (some filename) self
      process_objects lib fuel r.1 (pos + offset) self'
  ]

  -- The fuel and the bar of the loop: the builder is the one behind the list of the items.
  process_objects_lem :
      (fuel : ℕ) (s : ObjectIterSource) (pos : ℕ) (self : MemDbBuilder)
      → remaining s < fuel
      → builder_of (process_objects lib fuel s pos self) ≡ write_objects lib (items s) self
  unfolding process_objects NextSays write_objects
  process_objects_lem zero s pos self h = absurd (omega arith)
  process_objects_lem (suc fuel) s pos self h =
      by_next (process_objects_lem fuel) (next lib s) (next-items s)
    where
      by_next :
          ((s' : ObjectIterSource) (pos' : ℕ) (self' : MemDbBuilder)
            → remaining s' < fuel
            → builder_of (process_objects lib fuel s' pos' self')
              ≡ write_objects lib (items s') self')
          → (r : Option (Result (ℕ × (Str × Object))) × ObjectIterSource) → NextSays 0 s r
          → builder_of (loop_body fuel pos self r) ≡ write_objects lib (items s) self
      by_next ih (none, s') k = rw k refl
      by_next ih (some (ok (offset, (filename, obj))), s') (e, sum, less) =
          rw e (written (write_object lib obj (some filename) self))
        where
          written :
              (w : Result MemDbBuilder)
              → builder_of (w >>= λ b. process_objects lib fuel s' (pos + offset) b)
                ≡ (w >>= λ b. write_objects lib (items s') b)
          written (ok b) = ih s' (pos + offset) b (omega arith)
          written (err x) = refl
          written panic = refl
          written undefined = refl
      by_next ih (some (err x), s') (rest, k) = rw k refl
      by_next ih (some panic, s') (rest, k) = rw k refl
      by_next ih (some undefined, s') (rest, k) = rw k refl

  -- Dumping an SDK is dumping the list of what its files give, each file once and in order; the
  -- fuel of the loops is enough, and an error to open the source is the error of the dump.
  pub sdk_dump_memdb_lem :
      (xz : Bytes → Bytes) (fs : FileSystem) (self : Sdk) (compress : Bool)
      → sdk_dump_memdb lib xz fs self compress
        ≡ (objects fs self >>= λ s. dump_memdb lib xz self.info compress (items s))
  unfolding sdk_dump_memdb dump_memdb
  sdk_dump_memdb_lem xz fs self compress = opened (objects fs self)
    where
      flushed :
          (r : Result (MemDbBuilder × ℕ)) → (r >>= λ x. flush xz x.0) ≡ (builder_of r >>= flush xz)
      flushed (ok x) = refl
      flushed (err e) = refl
      flushed panic = refl
      flushed undefined = refl

      opened :
          (r : Result ObjectIterSource)
          → (r >>= λ s.
              process_objects lib (suc (remaining s)) s 0 (new_builder self.info compress) >>= λ x.
              flush xz x.0)
            ≡ (r >>= λ s. write_objects lib (items s) (new_builder self.info compress) >>= flush xz)
      opened (ok s) =
          flushed (process_objects lib (suc (remaining s)) s 0 (new_builder self.info compress))
          ∙ ap (λ b. b >>= flush xz)
              (process_objects_lem (suc (remaining s)) s 0 (new_builder self.info compress)
                (omega arith))
      opened (err e) = refl
      opened panic = refl
      opened undefined = refl

  process_objects-le :
      (fuel : ℕ) (s : ObjectIterSource) (pos : ℕ) (self b : MemDbBuilder) (end : ℕ)
      → process_objects lib fuel s pos self ≡ ok (b, end)
      → end ≤ pos + remaining s
  unfolding process_objects NextSays
  process_objects-le zero s pos self b end h = let same : pos ≡ end = ap position h in omega arith
  process_objects-le (suc fuel) s pos self b end h =
      by_next (process_objects-le fuel) (next lib s) (next-items s) h
    where
      by_next :
          ((s' : ObjectIterSource) (pos' : ℕ) (self' b' : MemDbBuilder) (end' : ℕ)
            → process_objects lib fuel s' pos' self' ≡ ok (b', end')
            → end' ≤ pos' + remaining s')
          → (r : Option (Result (ℕ × (Str × Object))) × ObjectIterSource) → NextSays 0 s r
          → loop_body fuel pos self r ≡ ok (b, end)
          → end ≤ pos + remaining s
      by_next ih (none, s') k h = let same : pos ≡ end = ap position h in omega arith
      by_next ih (some (ok (offset, (filename, obj))), s') (e, sum, less) h =
          let (self', w, rest) =
            >>=-middle (write_object lib obj (some filename) self)
              (λ b. process_objects lib fuel s' (pos + offset) b) (b, end) h in
          omega (arith, ih s' (pos + offset) self' b end rest, sum)
      by_next ih (some (err x), s') k h = absurd (cc h)
      by_next ih (some panic, s') k h = absurd (cc h)
      by_next ih (some undefined, s') k h = absurd (cc h)

  -- The progress bar of a dump never runs past `file_count`: when the loop over the objects of a
  -- source that was opened for a path returns, its position is at most the count.
  pub process_objects-le_file_count :
      (fs : FileSystem) (path : Str) (s : ObjectIterSource) (self b : MemDbBuilder) (pos : ℕ)
      → source_from_path fs path ≡ ok s
      → process_objects lib (suc (remaining s)) s 0 self ≡ ok (b, pos)
      → pos ≤ file_count fs s
  process_objects-le_file_count fs path s self b pos o h = omega (
    arith,
    process_objects-le (suc (remaining s)) s 0 self b pos h,
    remaining-source_from_path fs path s o,
  )
