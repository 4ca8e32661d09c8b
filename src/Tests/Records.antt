-- ===== src/Tests/Records.antt =====
-- src/memdb/types.rs at concrete values.
use symbolserver.Prelude.{◌≡◌, refl, some, arith}
use mathlib.Core.Option.{some-injective}
use symbolserver.Errors.{ok, ◌>>=◌}
use symbolserver.Text.{codes, is_utf8, trim_zeros}
use symbolserver.Sdk.{SdkInfo}
use symbolserver.Memdb.Types.{set_from_sdk_info, to_sdk_info}
use symbolserver.Memdb.Types.Laws.{IsPackable, default_packed, to_sdk_info-set_from_sdk_info}

abbrev ios : SdkInfo
ios = record {
  name = codes "iOS";
  version_major = 10;
  version_minor = 2;
  version_patchlevel = 3;
  build = some (codes "14C93");
}

ios-IsPackable : IsPackable ios
unfolding is_utf8 trim_zeros
ios-IsPackable = record {
  name_fits = record { room_left = omega arith; valid = refl; trimmed = refl };
  build_fits = λ b e. (
    rw (← some-injective (codes "14C93") b e)
        (record { room_left = omega arith; valid = refl; trimmed = refl }),
    rw (← some-injective (codes "14C93") b e) (ground arith),
  );
  major_fits = omega arith;
  minor_fits = omega arith;
  patchlevel_fits = omega arith;
}

to_sdk_info-set_from_sdk_info_example :
    (set_from_sdk_info default_packed ios >>= to_sdk_info) ≡ ok ios
to_sdk_info-set_from_sdk_info_example = to_sdk_info-set_from_sdk_info ios ios-IsPackable
