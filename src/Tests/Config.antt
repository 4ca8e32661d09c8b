-- ===== src/Tests/Config.antt =====
-- A configuration with options of the command line over it.
use symbolserver.Prelude.{
  ℕ, ◌≡◌, ◌↔◌, refl, Bool, true, false, Option, none, some, ◌++◌, if◌then◌else◌,
}
use symbolserver.Prelude.Map.{is_some}
use symbolserver.Prelude.Order.{◌=?◌, list_ord, nat_ord}
use symbolserver.Errors.{Str, ok}
use symbolserver.Text.{codes, from_str_radix, read_nonempty, read_digits, push_digit, to_digit}
use symbolserver.Config.{
  Config, Outside, default_config, option_result, load_file, bucket_url, get_aws_bucket_url,
  get_aws_region, get_log_level_filter, pos, negsuc, parse_i64,
}
use symbolserver.Config.Laws.{get_aws_bucket_url-exact}
use symbolserver.Config.CommandLine.{Matches, load_config}

-- Two regions and two levels, with their names.
abbrev name_of : Str → Str → Bool → Str
name_of a b true = a
name_of a b false = b

abbrev parse_name : Str → Str → Str → Option Bool
parse_name a b s = if s =? a then some true else (if s =? b then some false else none)

abbrev pub out : Outside Bool Bool ℕ
out = record {
  var = λ name. if name =? codes "AWS_DEFAULT_REGION" then some (codes "eu-west-1") else none;
  home_dir = some (codes "/root");
  exists = λ path. false;
  read = λ path. ok (codes "");
  dockerenv = false;
  cgroup = none;
  num_cpus = 4;
  parse_yaml = λ text. some (record default_config { symbol_dir = some (codes "/symbols") });
  parse_url = λ s. some (record { scheme = codes "s3"; host_str = some s });
  parse_region = parse_name (codes "us-east-1") (codes "eu-west-1");
  region_name = name_of (codes "us-east-1") (codes "eu-west-1");
  us_east_1 = true;
  parse_level = parse_name (codes "INFO") (codes "DEBUG");
  level_name = name_of (codes "INFO") (codes "DEBUG");
  info = true;
  seconds = ok;
}

abbrev join : Str → Str → Str
join a b = a ++ (codes "/" ++ b)

abbrev matches : Matches
matches = record {
  config = some (codes "server.yml");
  log_level = some (codes "DEBUG");
  symbol_dir = none;
  aws_bucket_url = some (codes "symbols");
  aws_region = none;
}

abbrev base : Config
base = record default_config { symbol_dir = some (codes "/symbols") }

abbrev cfg : Config
cfg = record base {
  log = record base.log { level = some (codes "DEBUG") };
  aws = record base.aws { bucket_url = some (codes "symbols") };
}

loaded : load_config out join matches ≡ ok base
unfolding load_config load_file option_result
loaded = refl

-- The region of the environment, and the level of the command line.
settings : (get_aws_region out cfg ≡ ok false) × (get_log_level_filter out cfg ≡ ok false)
unfolding get_aws_region get_log_level_filter option_result
settings = (refl, refl)

get_aws_bucket_url-exact_example :
    (get_aws_bucket_url out cfg
      ≡ ok (record { scheme = codes "s3"; host_str = some (codes "symbols") }))
    ↔ ((bucket_url out cfg ≡ ok (record { scheme = codes "s3"; host_str = some (codes "symbols") }))
        × (codes "s3" ≡ codes "s3")
        × (is_some (some (codes "symbols")) ≡ true))
get_aws_bucket_url-exact_example =
    get_aws_bucket_url-exact out cfg
      (record { scheme = codes "s3"; host_str = some (codes "symbols") })

-- Signed numbers as Rust reads them.
parse_i64_runs :
    (parse_i64 (codes "-12") ≡ some (negsuc 11))
    × (parse_i64 (codes "+7") ≡ some (pos 7))
    × (parse_i64 (codes "-0") ≡ some (pos 0))
    × (parse_i64 (codes "-+1") ≡ none)
    × (parse_i64 (codes "-") ≡ none)
unfolding parse_i64 from_str_radix read_nonempty read_digits push_digit to_digit
parse_i64_runs = (refl, refl, refl, refl, refl)
