-- ===== src/Tests/Copy.antt =====
-- A reader of three calls, one of them interrupted.
use symbolserver.Prelude.{◌++◌, ◌≡◌, refl, List, [], ◌∷◌}
use symbolserver.Errors.{ok, ◌>>=◌}
use symbolserver.Utils.Copy.{
  ReadCall, got, interrupted_call, copy_with_progress, contents, copy_of,
  copy_with_progress-contents,
}

abbrev calls : List ReadCall
calls = got (1 ∷ 2 ∷ []) ∷ interrupted_call ∷ got (3 ∷ []) ∷ []

copy_run : copy_with_progress (λ done bs. ok (done ++ bs)) calls [] 0 ≡ ok (3, 1 ∷ 2 ∷ 3 ∷ [])
unfolding copy_with_progress
copy_run = refl

copy_with_progress-contents_example :
    copy_with_progress (λ done bs. ok (done ++ bs)) calls [] 0 ≡ (contents calls >>= copy_of 0 [])
copy_with_progress-contents_example = copy_with_progress-contents calls [] 0
