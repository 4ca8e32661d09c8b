-- ===== src/S3/Keys.antt =====
-- src/s3.rs: the key that an SDK is listed under, and the key that it is downloaded from.
use symbolserver.Prelude.{◌≡◌, false, ◌==◌, if◌then◌else◌}
use symbolserver.Prelude.{[], ◌∷◌, ◌++◌, ◌⊎◌, any}
use symbolserver.Prelude.Order.{◌=?◌, nat_ord, list_ord}
use symbolserver.Errors.{Str}

abbrev NoSlash : Str → Type 0
NoSlash s = any (λ c. c == b'/') s ≡ false

-- The prefix that a trimmed path gives.
abbrev prefix_of : Str → Str
prefix_of p = if p =? [] then [] else p ++ b'/' ∷ []

-- The folders between the prefix of the bucket and a file name: none, or a path with a slash at its
-- end.
abbrev pub IsFolder : Str → Type 0
IsFolder below = (below ≡ []) ⊎ ((path : Str) × (below ≡ path ++ b'/' ∷ []))
