-- ===== src/Tests/Filename.antt =====
-- The file name parser on concrete names.
use symbolserver.Prelude.{◌≡◌, refl, arith, true, none, some, []}
use mathlib.Core.Option.{some-injective}
use symbolserver.Text.{codes}
use symbolserver.Sdk.Filename.{from_filename, from_path, strip_archive_file_prefix, ends_memdb}
use symbolserver.Sdk.{SdkInfo, make_id}
use symbolserver.Sdk.Filename.Nameable.{from_filename-from_path}
use symbolserver.Sdk.Filename.RoundTrip.{IsNameable, from_filename-make_id}
use symbolserver.Tests.Writer.{info}

parses_memdb :
    from_filename (codes "iOS_10.3.1_14E8301.memdb")
    ≡ some (record {
      name = codes "iOS";
      version_major = 10;
      version_minor = 3;
      version_patchlevel = 1;
      build = some (codes "14E8301");
    })
unfolding from_filename
parses_memdb = refl

parses_archive :
    from_path (codes "/x/tvOS DeviceSupport/9.2 (13Y234).zip")
    ≡ some (record {
      name = codes "tvOS";
      version_major = 9;
      version_minor = 2;
      version_patchlevel = 0;
      build = some (codes "13Y234");
    })
unfolding from_path
parses_archive = refl

rejects_dash : from_filename (codes "i-OS_10.3") ≡ none
unfolding from_filename
rejects_dash = refl

strips_prefix : strip_archive_file_prefix (codes "9.2/Symbols/usr/lib") ≡ codes "usr/lib"
unfolding strip_archive_file_prefix
strips_prefix = refl

info-IsNameable : IsNameable info
info-IsNameable = record {
  name_nonempty = λ e. absurd (cc e);
  name_plain = ((refl, refl), ((refl, refl), ((refl, refl), tt)));
  major_fits = omega arith;
  minor_fits = omega arith;
  patchlevel_fits = omega arith;
  build_plain = λ b e.
      rw (← some-injective (codes "14C89") b e)
        (λ no. absurd (cc no), (refl, (refl, (refl, (refl, (refl, tt))))));
}

from_filename-make_id_example : from_filename (make_id info (codes ".memdbz")) ≡ some info
from_filename-make_id_example =
    from_filename-make_id info (codes ".memdbz") info-IsNameable compressed
  where
    compressed : ends_memdb (codes ".memdbz") ≡ true
    compressed = unfold ends_memdb in refl

abbrev archive_sdk : SdkInfo
archive_sdk = record {
  name = codes "tvOS";
  version_major = 9;
  version_minor = 2;
  version_patchlevel = 0;
  build = some (codes "13Y234");
}

from_filename-from_path_example : from_filename (make_id archive_sdk []) ≡ some archive_sdk
from_filename-from_path_example =
    from_filename-from_path (codes "/x/tvOS DeviceSupport/9.2 (13Y234).zip") [] archive_sdk
      parses_archive id_ends
  where
    id_ends : ends_memdb [] ≡ true
    id_ends = unfold ends_memdb in refl
