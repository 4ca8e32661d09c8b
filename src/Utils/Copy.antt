-- ===== src/Utils/Copy.antt =====
-- `copy_with_progress` of src/utils.rs. A reader is the list of what its calls of `read` come to,
-- then the end; the progress bar is left out.
use symbolserver.Prelude.{ℕ, ◌+◌, ◌≡◌, refl, sym, ◌∙◌, arith}
use symbolserver.Prelude.{List, [], ◌∷◌, ◌++◌, length, length-append}
use symbolserver.Errors.{Result, ok, err, panic, undefined, ◌>>=◌, IoKind, io}
use symbolserver.Bytes.{Bytes}
use mathlib.Core.List.{append_assoc, append-nil}

-- A call of `read`: some bytes, of which none mean the end, an interruption, or another error.
pub data ReadCall : Type 0 where
  got : Bytes → ReadCall
  interrupted_call : ReadCall
  failed : IoKind → ReadCall

-- The writer is what `write_all` makes of what was written so far and the next bytes.
unfoldable pub copy_with_progress :
    (Bytes → Bytes → Result Bytes) → List ReadCall → Bytes → ℕ → Result (ℕ × Bytes)
copy_with_progress write_all [] out written = ok (written, out)
copy_with_progress write_all (got [] ∷ calls) out written = ok (written, out)
copy_with_progress write_all (got (b ∷ bs) ∷ calls) out written = do
  out' ← write_all out (b ∷ bs)
  copy_with_progress write_all calls out' (written + length (b ∷ bs))
copy_with_progress write_all (interrupted_call ∷ calls) out written =
    copy_with_progress write_all calls out written
copy_with_progress write_all (failed e ∷ calls) out written = err (io e)

-- What a reader has: the bytes up to its end, or the first error but for interruptions.
abbrev pub contents : List ReadCall → Result Bytes
contents [] = ok []
contents (got [] ∷ calls) = ok []
contents (got (b ∷ bs) ∷ calls) = contents calls >>= λ more. ok ((b ∷ bs) ++ more)
contents (interrupted_call ∷ calls) = contents calls
contents (failed e ∷ calls) = err (io e)

-- A copy of `all` behind `written` bytes, which are `out`.
abbrev pub copy_of : ℕ → Bytes → Bytes → Result (ℕ × Bytes)
copy_of written out all = ok (written + length all, out ++ all)

copied_lem :
    (r : Result Bytes) (out bs : Bytes) (written : ℕ)
    → (r >>= copy_of (written + length bs) (out ++ bs))
      ≡ ((r >>= λ more. ok (bs ++ more)) >>= copy_of written out)
copied_lem (ok more) out bs written =
    let count : written + length bs + length more ≡ written + length (bs ++ more) =
      omega (arith, length-append bs more) in
    λ i. ok (count i, append_assoc out bs more i)
copied_lem (err e) out bs written = refl
copied_lem panic out bs written = refl
copied_lem undefined out bs written = refl

nothing_lem : (out : Bytes) (written : ℕ) → copy_of written out [] ≡ ok (written, out)
nothing_lem out written =
    let count : written + 0 ≡ written = omega arith in λ i. ok (count i, append-nil out i)

-- To a writer that takes everything, a copy appends what the reader has and counts it, whatever the
-- sizes of the reads and however often they are interrupted; an error of the reader ends it.
pub copy_with_progress-contents :
    (calls : List ReadCall) (out : Bytes) (written : ℕ)
    → copy_with_progress (λ done bs. ok (done ++ bs)) calls out written
      ≡ (contents calls >>= copy_of written out)
unfolding copy_with_progress
copy_with_progress-contents [] out written = sym (nothing_lem out written)
copy_with_progress-contents (got [] ∷ calls) out written = sym (nothing_lem out written)
copy_with_progress-contents (got (b ∷ bs) ∷ calls) out written =
    copy_with_progress-contents calls (out ++ (b ∷ bs)) (written + length (b ∷ bs))
    ∙ copied_lem (contents calls) out (b ∷ bs) written
copy_with_progress-contents (interrupted_call ∷ calls) out written =
    copy_with_progress-contents calls out written
copy_with_progress-contents (failed e ∷ calls) out written = refl
