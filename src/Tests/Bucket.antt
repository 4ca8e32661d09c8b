-- ===== src/Tests/Bucket.antt =====
-- Keys and etags of a bucket.
use symbolserver.Prelude.{◌≡◌, refl, none, some, [], ◌∷◌}
use symbolserver.Prelude.Order.{nat_ord, list_ord}
use symbolserver.Errors.{ok}
use symbolserver.Text.{codes}
use symbolserver.Memdb.Stash.State.{RemoteSdk}
use symbolserver.S3.{
  filename_from_key, unquote_etag, list_upstream_sdks, contents, remote_sdks, object_to_remote_sdk,
}
use symbolserver.Sdk.Filename.{from_filename}

abbrev sdk : RemoteSdk
sdk = record {
  filename = codes "iOS_10.2.0.memdbz";
  info = record {
    name = codes "iOS";
    version_major = 10;
    version_minor = 2;
    version_patchlevel = 0;
    build = none;
  };
  size = 7;
  etag = codes "e";
}

unquotes : unquote_etag (some (b'"' ∷ b'e' ∷ b'"' ∷ [])) ≡ ok (some (codes "e"))
unfolding unquote_etag
unquotes = refl

-- An object that is no memdb is passed over.
lists :
    list_upstream_sdks (
      contents (
        some (
          record {
            key = some (codes "sdks/iOS_10.2.0.memdbz");
            e_tag = some (b'"' ∷ b'e' ∷ b'"' ∷ []);
            size = some 7;
          }
          ∷ record { key = some (codes "sdks/readme"); e_tag = none; size = some 1 }
          ∷ [])))
    ≡ ok (sdk ∷ [])
unfolding list_upstream_sdks remote_sdks object_to_remote_sdk filename_from_key from_filename
    unquote_etag
lists = refl
