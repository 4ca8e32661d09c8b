-- ===== src/Config/CommandLine.antt =====
-- src/cli.rs: the options of the command line that override the configuration.
use symbolserver.Prelude.{Option, none, some}
use symbolserver.Errors.{Str, Result, ok, ◌>>=◌, msg}
use symbolserver.Text.{codes}
use symbolserver.Config.{
  Config, Outside, option_result, load_file, load_default, set_log_level_filter, set_symbol_dir,
  set_aws_bucket_url, set_aws_region,
}

-- `ArgMatches`, the options for all commands.
pub record Matches : Type 0 where
  pub config : Option Str
  pub log_level : Option Str
  pub symbol_dir : Option Str
  pub aws_bucket_url : Option Str
  pub aws_region : Option Str

module _ {Region Level Duration : Type 0} (out : Outside Region Level Duration)
    (join : Str → Str → Str) where
  unfoldable pub load_config : Matches → Result Config
  load_config matches = elim matches.config [
    | some config_path ↦ load_file out config_path
    | none ↦ load_default out join
  ]

  unfoldable pub override_log_level : Option Str → Config → Result Config
  override_log_level none cfg = ok cfg
  override_log_level (some value) cfg = do
    filter ← option_result (msg (codes "Invalid value for log level")) (out.parse_level value)
    ok (set_log_level_filter out filter cfg)

  unfoldable pub override_symbol_dir : Option Str → Config → Config
  override_symbol_dir none cfg = cfg
  override_symbol_dir (some value) cfg = set_symbol_dir out value cfg

  unfoldable pub override_bucket_url : Option Str → Config → Config
  override_bucket_url none cfg = cfg
  override_bucket_url (some value) cfg = set_aws_bucket_url out value cfg

  unfoldable pub override_region : Option Str → Config → Result Config
  override_region none cfg = ok cfg
  override_region (some value) cfg = do
    region ← option_result (msg (codes "Invalid AWS region")) (out.parse_region value)
    ok (set_aws_region out region cfg)

  unfoldable pub config_from_matches : Matches → Result Config
  config_from_matches matches = do
    cfg ← load_config matches
    cfg₁ ← override_log_level matches.log_level cfg
    override_region matches.aws_region
        (override_bucket_url matches.aws_bucket_url (override_symbol_dir matches.symbol_dir cfg₁))
