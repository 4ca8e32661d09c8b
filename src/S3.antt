-- ===== src/S3.antt =====
-- src/s3.rs: the keys of the bucket, and the list of SDKs that is made of a listing. The requests
-- themselves, and the parts of the bucket's URL, are answered from outside.
use symbolserver.Prelude.{ℕ, ◌-◌, Bool, true, false, ◌&&◌, ◌==◌, ltb, if◌then◌else◌}
use symbolserver.Prelude.{Option, none, some, List, [], ◌∷◌, ◌++◌, length, take, drop}
use symbolserver.Prelude.Order.{◌=?◌, nat_ord, list_ord}
use symbolserver.Errors.{Str, Result, ok, err, panic, ErrorKind, s3_unavailable, msg, ◌>>=◌}
use symbolserver.Text.{codes, is_continuation}
use symbolserver.Sdk.{SdkInfo}
use symbolserver.Sdk.Filename.{from_filename}
use symbolserver.Memdb.Stash.State.{RemoteSdk}
pub mod Keys
pub mod Client

-- What stands behind the last `/`, or the whole text.
after_last : ℕ → Str → Option Str
after_last c [] = none
after_last c (x ∷ s) = elim (after_last c s) [
  | some rest ↦ some rest
  | none ↦ if x == c then some s else none
]

-- `key.rsplitn(2, '/').next()`
unfoldable pub filename_from_key : Str → Option Str
unfolding after_last
filename_from_key key = elim (after_last b'/' key) [ none ↦ some key | some rest ↦ some rest ]

-- Slicing a `str` inside a character panics.
unfoldable pub unquote_etag : Option Str → Result (Option Str)
unquote_etag none = ok none
unquote_etag (some etag) =
    let last = drop (length etag - 1) etag in
    if ltb 2 (length etag)
    then (if is_continuation (drop 1 etag)
        then panic
        else if take 1 etag =? b'"' ∷ []
        then (if is_continuation last
            then panic
            else if last =? b'"' ∷ []
            then ok (some (drop 1 (take (length etag - 1) etag)))
            else ok none)
        else ok none)
    else ok none

-- `trim_right_matches('/')`
trim_right : Str → Str
trim_right [] = []
trim_right (c ∷ s) = let rest = trim_right s in if rest =? [] && c == b'/' then [] else c ∷ rest

-- `trim_left_matches('/')`
trim_left : Str → Str
trim_left [] = []
trim_left (c ∷ s) = let rest = trim_left s in if c == b'/' then rest else c ∷ s

-- `S3Server::bucket_prefix`, of the path of the URL.
unfoldable pub bucket_prefix : Str → Str
unfolding trim_left trim_right
bucket_prefix url_path =
    let path = trim_right (trim_left url_path) in if path =? [] then [] else path ++ b'/' ∷ []

-- An entry of a listing. `size` is what `as u64` makes of the size.
pub record Object : Type 0 where
  pub key : Option Str
  pub e_tag : Option Str
  pub size : Option ℕ

ends_with : Str → Str → Bool
ends_with suffix s =
    if ltb (length s) (length suffix) then false else drop (length s - length suffix) s =? suffix

-- Behind `unquote_etag`.
sdk_of_parts : Str → SdkInfo → Option Str → Option ℕ → Option RemoteSdk
sdk_of_parts filename info (some etag) (some size) =
    some (record { filename = filename; info = info; size = size; etag = etag })
sdk_of_parts filename info _ _ = none

-- `S3Server::object_to_remote_sdk`
unfoldable pub object_to_remote_sdk : Object → Result (Option RemoteSdk)
unfolding sdk_of_parts ends_with
object_to_remote_sdk obj = elim obj.key [
  | none ↦ ok none
  | some key ↦
      if ends_with (codes ".memdbz") key
      then (elim (filename_from_key key) [
        | none ↦ ok none
        | some filename ↦ elim (from_filename filename) [
          | none ↦ ok none
          | some info ↦ do
            etag ← unquote_etag obj.e_tag
            ok (sdk_of_parts filename info etag obj.size)
        ]
      ])
      else ok none
]

-- The loop over the listing.
unfoldable pub remote_sdks : List Object → Result (List RemoteSdk)
remote_sdks [] = ok []
remote_sdks (obj ∷ rest) = do
  found ← object_to_remote_sdk obj
  sdks ← remote_sdks rest
  ok (elim found [ none ↦ sdks | some sdk ↦ sdk ∷ sdks ])

-- What `list_objects` answers.
pub data Listing : Type 0 where
  contents : Option (List Object) → Listing
  http_dispatch : Str → Listing
  other_error : Listing

-- `S3Server::list_upstream_sdks`
unfoldable pub list_upstream_sdks : Listing → Result (List RemoteSdk)
list_upstream_sdks (contents none) = ok []
list_upstream_sdks (contents (some objs)) = remote_sdks objs
list_upstream_sdks (http_dispatch e) = err (s3_unavailable e)
list_upstream_sdks other_error = err (msg (codes "Failed to fetch SDKs from S3"))

-- The key that `download_sdk` asks for.
unfoldable pub download_key : Str → RemoteSdk → Str
unfolding trim_right
download_key url_path sdk = trim_right (bucket_prefix url_path) ++ (b'/' ∷ sdk.filename)
