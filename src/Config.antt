-- ===== src/Config.antt =====
-- src/config.rs: the settings, each from the file, the environment or a default, and `is_docker` of
-- src/utils.rs. A path is its text.
use symbolserver.Prelude.{ℕ, ◌+◌, ◌-◌, ◌*◌, ◌/◌, ◌^◌, Bool, true, false, not, ◌||◌, ltb, leb, ◌==◌}
use symbolserver.Prelude.{Option, none, some, List, [], ◌∷◌, if◌then◌else◌}
use symbolserver.Prelude.Map.{is_some}
use symbolserver.Prelude.Order.{◌=?◌, nat_ord, list_ord}
use symbolserver.Errors.{
  Str, Result, ok, err, panic, undefined, ◌>>=◌, ErrorKind, config_error, bad_config_key,
  missing_config_key, foreign, url_parse_error, msg,
}
use symbolserver.Text.{codes, from_str_radix, read_nonempty}
use symbolserver.Utils.IgnorePatterns.{IgnorePatterns}
pub mod CommandLine
pub mod Laws
pub mod Overrides

-- An `i64`.
pub data ℤ : Type 0 where
  pos negsuc : ℕ → ℤ

pub record AwsConfig : Type 0 where
  pub endpoint : Option Str
  pub access_key : Option Str
  pub secret_key : Option Str
  pub bucket_url : Option Str
  pub region : Option Str

pub record ServerConfig : Type 0 where
  pub host : Option Str
  pub port : Option ℕ
  pub healthcheck_interval : Option ℤ
  pub threads : Option ℕ

pub record LogConfig : Type 0 where
  pub level : Option Str
  pub file : Option Str

pub record SyncConfig : Type 0 where
  pub ignore : IgnorePatterns
  pub interval : Option ℤ

pub record Config : Type 0 where
  pub aws : AwsConfig
  pub server : ServerConfig
  pub log : LogConfig
  pub symbol_dir : Option Str
  pub sync : SyncConfig

abbrev pub default_config : Config
default_config = record {
  aws = record {
    endpoint = none;
    access_key = none;
    secret_key = none;
    bucket_url = none;
    region = none;
  };
  server = record { host = none; port = none; healthcheck_interval = none; threads = none };
  log = record { level = none; file = none };
  symbol_dir = none;
  sync = record { ignore = []; interval = none };
}

-- `url::Url`, the parts that are read.
pub record Url : Type 0 where
  pub scheme : Str
  pub host_str : Option Str

-- What the process finds outside, and the parsers of other crates.
pub record Outside (Region Level Duration : Type 0) : Type 0 where
  -- `env::var(name).ok()`
  pub var : Str → Option Str
  pub home_dir : Option Str
  pub exists : Str → Bool
  -- What a file holds, or the error of reading it.
  pub read : Str → Result Str
  -- Whether `/.dockerenv` is there, and what `/proc/self/cgroup` holds, if it can be read.
  pub dockerenv : Bool
  pub cgroup : Option Str
  pub num_cpus : ℕ
  pub parse_yaml : Str → Option Config
  pub parse_url : Str → Option Url
  pub parse_region : Str → Option Region
  pub region_name : Region → Str
  pub us_east_1 : Region
  pub parse_level : Str → Option Level
  pub level_name : Level → Str
  pub info : Level
  -- `chrono::Duration::seconds`
  pub seconds : ℕ → Result Duration

unfoldable pub starts_with : Str → Str → Bool
starts_with [] s = true
starts_with (p ∷ ps) [] = false
starts_with (p ∷ ps) (c ∷ s) = let rest = starts_with ps s in if p == c then rest else false

-- `s.find(p).is_some()`
unfoldable pub contains : Str → Str → Bool
contains p [] = starts_with p []
contains p (c ∷ s) = starts_with p (c ∷ s) || contains p s

-- `parse::<i64>` of the standard library.
unfoldable pub parse_i64 : Str → Option ℤ
parse_i64 [] = none
parse_i64 (c ∷ s) =
    if c == b'-'
    then (elim (read_nonempty 10 (2 ^ 63 + 1) s) [
      | none ↦ none
      | some n ↦ some (if n == 0 then pos 0 else negsuc (n - 1))
    ])
    else (elim (from_str_radix 10 (2 ^ 63) (c ∷ s)) [ none ↦ none | some n ↦ some (pos n) ])

unfoldable pub option_result {ℓ} : {A : Type ℓ} → ErrorKind → Option A → Result A
option_result e none = err e
option_result e (some a) = ok a

-- The first of two options.
abbrev pub or_else {ℓ} : {A : Type ℓ} → Option A → Option A → Option A
or_else none b = b
or_else (some a) b = some a

-- The getters that hand out what the file says.
abbrev pub get_aws_access_key : Config → Option Str
get_aws_access_key self = self.aws.access_key

abbrev pub get_aws_secret_key : Config → Option Str
get_aws_secret_key self = self.aws.secret_key

abbrev pub get_aws_endpoint : Config → Option Str
get_aws_endpoint self = self.aws.endpoint

abbrev pub get_ignore_patterns : Config → Result IgnorePatterns
get_ignore_patterns self = ok self.sync.ignore

abbrev pub bucket_key : Str
bucket_key = codes "aws.bucket_url"

module _ {Region Level Duration : Type 0} (out : Outside Region Level Duration) where
  -- `Config::load_file`
  unfoldable pub load_file : Str → Result Config
  load_file path = do text ← out.read path; option_result config_error (out.parse_yaml text)

  -- `Config::load_default`; `join` puts the file name behind the home directory.
  unfoldable pub load_default : (Str → Str → Str) → Result Config
  load_default join = elim out.home_dir [
    | none ↦ ok default_config
    | some home ↦
        let path = join home (codes ".sentry-symbolserver.yml") in
        if out.exists path then load_file path else ok default_config
  ]

  -- The URL of the bucket, before it is checked.
  unfoldable pub bucket_url : Config → Result Url
  bucket_url self = elim self.aws.bucket_url [
    | some value ↦ option_result (foreign url_parse_error) (out.parse_url value)
    | none ↦ elim (out.var (codes "SYMBOLSERVER_BUCKET_URL")) [
      | some value ↦ option_result (foreign url_parse_error) (out.parse_url value)
      | none ↦ err (missing_config_key bucket_key)
    ]
  ]

  unfoldable pub get_aws_bucket_url : Config → Result Url
  get_aws_bucket_url self = do
    url ← bucket_url self
    if not (url.scheme =? codes "s3")
        then err (bad_config_key bucket_key (codes "The scheme for the bucket URL needs to be s3"))
        else (if is_some url.host_str
            then ok url
            else err (bad_config_key bucket_key (codes "The bucket URL is missing a name")))

  unfoldable pub set_aws_bucket_url : Str → Config → Config
  set_aws_bucket_url value self = record self { aws = record self.aws { bucket_url = some value } }

  unfoldable pub get_aws_region : Config → Result Region
  get_aws_region self = elim (or_else self.aws.region (out.var (codes "AWS_DEFAULT_REGION"))) [
    | none ↦ ok out.us_east_1
    | some region ↦
        option_result
          (bad_config_key (codes "aws.region") (codes "An unknown AWS region was provided"))
          (out.parse_region region)
  ]

  unfoldable pub set_aws_region : Region → Config → Config
  set_aws_region value self = record self {
    aws = record self.aws { region = some (out.region_name value) };
  }

  unfoldable pub get_symbol_dir : Config → Result Str
  get_symbol_dir self =
      option_result (missing_config_key (codes "symbol_dir"))
        (or_else self.symbol_dir (out.var (codes "SYMBOLSERVER_SYMBOL_DIR")))

  unfoldable pub set_symbol_dir : Str → Config → Config
  set_symbol_dir value self = record self { symbol_dir = some value }

  -- `is_docker` of src/utils.rs
  unfoldable pub is_docker : Bool
  is_docker =
      if out.dockerenv
      then true
      else (elim out.cgroup [ none ↦ false | some s ↦ contains (codes "/docker") s ])

  unfoldable pub get_server_host : Config → Result Str
  get_server_host self = elim (or_else self.server.host (out.var (codes "IP"))) [
    | some host ↦ ok host
    | none ↦ ok (if is_docker then codes "0.0.0.0" else codes "127.0.0.1")
  ]

  unfoldable pub get_server_port : Config → Result ℕ
  get_server_port self = elim self.server.port [
    | some port ↦ ok port
    | none ↦ elim (out.var (codes "PORT")) [
      | some portstr ↦
          option_result (msg (codes "Invalid value for port")) (from_str_radix 10 (2 ^ 16) portstr)
      | none ↦ ok 3000
    ]
  ]

  unfoldable pub get_server_socket_addr : Config → Result (Str × ℕ)
  get_server_socket_addr self = do
    host ← get_server_host self
    port ← get_server_port self
    ok (host, port)

  -- An interval of the file or of a variable, in seconds; `none` is neither.
  unfoldable pub interval_of : ErrorKind → Option ℤ → Option Str → Result (Option ℤ)
  interval_of e given variable = elim given [
    | some n ↦ ok (some n)
    | none ↦ elim variable [
      | some text ↦ (do n ← option_result e (parse_i64 text); ok (some n))
      | none ↦ ok none
    ]
  ]

  unfoldable pub duration_of : ErrorKind → ℤ → Result Duration
  duration_of e (pos n) = out.seconds n
  duration_of e (negsuc n) = err e

  unfoldable pub get_server_healthcheck_interval : Config → Result Duration
  get_server_healthcheck_interval self = do
    ttl ←
        interval_of (msg (codes "Invalid value for healthcheck interval"))
          self.server.healthcheck_interval (out.var (codes "SYMBOLSERVER_HEALTHCHECK_INTERVAL"))
    elim ttl [
      | none ↦ out.seconds 30
      | some n ↦
          duration_of
            (bad_config_key (codes "server.healthcheck_interval")
              (codes "Healthcheck interval has to be positive"))
            n
    ]

  unfoldable pub get_server_sync_interval : Config → Result Duration
  get_server_sync_interval self = do
    interval ←
        interval_of (msg (codes "Invalid value for sync interval")) self.sync.interval
          (out.var (codes "SYMBOLSERVER_SYNC_INTERVAL"))
    elim interval [
      | none ↦ out.seconds 60
      | some n ↦
          duration_of
            (bad_config_key (codes "sync.interval") (codes "Sync interval has to be positive")) n
    ]

  unfoldable pub get_server_threads : Config → Result ℕ
  get_server_threads self = elim self.server.threads [
    | some threads ↦ ok threads
    | none ↦ elim (out.var (codes "SYMBOLSERVER_THREADS")) [
      | some threadstr ↦
          option_result (msg (codes "Invalid value for thread count"))
            (from_str_radix 10 (2 ^ 64) threadstr)
      | none ↦ ok (out.num_cpus * 5 / 4)
    ]
  ]

  unfoldable pub get_log_level_filter : Config → Result Level
  get_log_level_filter self =
      elim (or_else self.log.level (out.var (codes "SYMBOLSERVER_LOG_LEVEL"))) [
        | none ↦ ok out.info
        | some lvl ↦
            option_result (bad_config_key (codes "log.level") (codes "unknown log level"))
              (out.parse_level lvl)
      ]

  unfoldable pub set_log_level_filter : Level → Config → Config
  set_log_level_filter value self = record self {
    log = record self.log { level = some (out.level_name value) };
  }

  unfoldable pub get_log_filename : Config → Result (Option Str)
  get_log_filename self = ok (or_else self.log.file (out.var (codes "SYMBOLSERVER_LOG_FILE")))
