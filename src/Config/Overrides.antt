-- ===== src/Config/Overrides.antt =====
-- src/cli.rs and src/config.rs: the command line comes before the file and the environment.
use symbolserver.Prelude.{◌≡◌, Option, none, some}
use symbolserver.Errors.{Str, Result, bad_config_key, foreign, url_parse_error}
use symbolserver.Text.{codes}
use symbolserver.Config.{
  Config, Url, Outside, option_result, bucket_url, get_aws_region, get_log_level_filter,
}
use symbolserver.Config.CommandLine.{Matches, override_symbol_dir, override_bucket_url}

-- A value that an option gives, or what is there without it.
abbrev pub given_or {ℓ} : {A : Type ℓ} → (Str → A) → Option Str → A → A
given_or f none a = a
given_or f (some s) a = f s

module _ {Region Level Duration : Type 0} (out : Outside Region Level Duration) where
  abbrev pub level_of : Str → Result Level
  level_of s =
      option_result (bad_config_key (codes "log.level") (codes "unknown log level"))
        (out.parse_level s)

  abbrev pub region_of : Str → Result Region
  region_of s =
      option_result
        (bad_config_key (codes "aws.region") (codes "An unknown AWS region was provided"))
        (out.parse_region s)

  abbrev pub url_of : Str → Result Url
  url_of s = option_result (foreign url_parse_error) (out.parse_url s)

module _ {Region Level Duration : Type 0} (out : Outside Region Level Duration)
    (join : Str → Str → Str) where
  -- What an override of one section leaves.
  record LevelSet (given : Option Str) (a b : Config) : Type 0 where
    level : get_log_level_filter out b ≡ given_or (level_of out) given (get_log_level_filter out a)
    same_aws : b.aws ≡ a.aws
    same_dir : b.symbol_dir ≡ a.symbol_dir
    same_server : b.server ≡ a.server
    same_sync : b.sync ≡ a.sync

  record RegionSet (given : Option Str) (a b : Config) : Type 0 where
    region : get_aws_region out b ≡ given_or (region_of out) given (get_aws_region out a)
    same_url : b.aws.bucket_url ≡ a.aws.bucket_url
    same_dir : b.symbol_dir ≡ a.symbol_dir
    same_log : b.log ≡ a.log
    same_server : b.server ≡ a.server
    same_sync : b.sync ≡ a.sync

  -- The two overrides in between.
  abbrev between : Matches → Config → Config
  between m a =
      override_bucket_url out join m.aws_bucket_url (override_symbol_dir out join m.symbol_dir a)
