-- ===== src/S3/Client.antt =====
-- src/s3.rs: the set-up of the client, its credentials, and downloads; and `MemDbStash::new` of
-- src/memdb/stash.rs, which makes one. TLS, the URL of a proxy, the regions and the requests are
-- other crates': their answers are the fields of `Network`.
use symbolserver.Prelude.{ℕ, Option, none, some, if◌then◌else◌}
use symbolserver.Prelude.Order.{◌=?◌, nat_ord, list_ord}
use symbolserver.Errors.{
  Str, Result, ok, err, panic, undefined, msg, foreign, url_parse_error, ◌>>=◌,
}
use symbolserver.Bytes.{Bytes}
use symbolserver.Text.{codes}
use symbolserver.Utils.IgnorePatterns.{IgnorePatterns}
use symbolserver.Config.{
  Config, Outside, Url, get_aws_access_key, get_aws_secret_key, get_aws_endpoint, get_aws_region,
  get_aws_bucket_url, get_symbol_dir, get_ignore_patterns,
}
use symbolserver.Memdb.Stash.State.{RemoteSdk}
use symbolserver.S3.{download_key}

pub record Credentials : Type 0 where
  pub key : Str
  pub secret : Str

-- `FlexibleCredentialsProvider`
pub record FlexibleCredentialsProvider : Type 0 where
  pub chain_provider : Result Credentials
  pub access_key : Option Str
  pub secret_key : Option Str

-- `credentials`: both keys of the configuration, or what the chain of providers finds.
unfoldable pub credentials : FlexibleCredentialsProvider → Result Credentials
credentials self = elim self.access_key [
  | none ↦ self.chain_provider
  | some access_key ↦ elim self.secret_key [
    | none ↦ self.chain_provider
    | some secret_key ↦ ok (record { key = access_key; secret = secret_key })
  ]
]

-- The address of a proxy, with what `host_str` and `port` give.
pub record ProxyUrl : Type 0 where
  pub host_str : Option Str
  pub port : Option ℕ

-- What `get_object` answers: an error, or a body; reading the body may fail.
pub data Downloaded : Type 0 where
  body : Option (Result Bytes) → Downloaded
  get_error : Downloaded

pub record Network : Type 0 where
  pub native_tls : Result (Unit {0})
  pub http_proxy : Option Str
  pub parse_proxy : Str → Option ProxyUrl
  pub chain_provider : Result Credentials
  pub get_object : Str → Str → Downloaded

-- `unwrap`
unwrap_option : {A : Type 0} → Option A → Result A
unwrap_option none = panic
unwrap_option (some a) = ok a

-- `chain_err`: an error becomes the message, with the other as its cause.
unfoldable pub chain_err : {A : Type 0} → Result A → Str → Result A
chain_err (ok a) m = ok a
chain_err (err e) m = err (msg m)
chain_err panic m = panic
chain_err undefined m = undefined

-- A client that goes through a proxy, or one that does not.
pub data HyperClient : Type 0 where
  with_proxy : Str → ℕ → HyperClient
  with_connector : HyperClient

-- `new_hyper_client`; a proxy without a host or a port is a panic.
unfoldable pub new_hyper_client : Network → Result HyperClient
unfolding unwrap_option
new_hyper_client net = do
  _ ← chain_err net.native_tls (codes "Couldn't create NativeTlsClient.")
  elim net.http_proxy [
    | none ↦ ok with_connector
    | some proxy_url ↦ elim (net.parse_proxy proxy_url) [
      | none ↦ err (foreign url_parse_error)
      | some proxy ↦ do
        host ← unwrap_option proxy.host_str
        port ← unwrap_option proxy.port
        ok (with_proxy host port)
    ]
  ]

-- `Region`: one that is known, or a custom one with an endpoint.
pub data S3Region (Region : Type 0) : Type 0 where
  known : Region → S3Region Region
  custom : Str → Str → S3Region Region

pub record S3Server (Region : Type 0) : Type 0 where
  pub url : Url
  pub client : HyperClient
  pub provider : FlexibleCredentialsProvider
  pub region : S3Region Region

module _ {Region Level Duration : Type 0} (out : Outside Region Level Duration)
    (net : Network) where
  -- The choice of the region: an endpoint that is not empty takes the place of the region.
  unfoldable pub choose_region : Config → Result (S3Region Region)
  choose_region config =
      let endpoint : Str = elim (get_aws_endpoint config) [ none ↦ codes "" | some e ↦ e ] in
      if endpoint =? codes ""
      then (do region ← get_aws_region out config; ok (known region))
      else ok (custom (codes "us-east-1") endpoint)

  -- `S3Server::from_config`
  unfoldable pub from_config : Config → Result (S3Server Region)
  from_config config = do
    region ← choose_region config
    url ← get_aws_bucket_url out config
    client ← chain_err (new_hyper_client net) (codes "Could not configure TLS layer")
    ok (record {
      url = url;
      client = client;
      provider = record {
        chain_provider = net.chain_provider;
        access_key = get_aws_access_key config;
        secret_key = get_aws_secret_key config;
      };
      region = region;
    })

  -- `S3Server::bucket_name`
  unfoldable pub bucket_name : S3Server Region → Result Str
  unfolding unwrap_option
  bucket_name self = unwrap_option self.url.host_str

  -- `S3Server::download_sdk`, of the path of the URL: an answer without a body, or one that ends
  -- early, is a panic.
  unfoldable pub download_sdk : S3Server Region → Str → RemoteSdk → Result Bytes
  unfolding unwrap_option
  download_sdk self url_path sdk = do
    bucket ← bucket_name self
    elim (net.get_object bucket (download_key url_path sdk)) [
      | get_error ↦ err (msg (codes "Failed to fetch SDK from S3"))
      | body answered ↦ do
        stream ← unwrap_option answered
        elim stream [ ok bytes ↦ ok bytes | err e ↦ panic | panic ↦ panic | undefined ↦ undefined ]
    ]

  -- What a `MemDbStash` is made of, but for the locks, which are empty at first.
  pub record StashParts : Type 0 where
    pub path : Str
    pub s3 : S3Server Region
    pub ignore_patterns : IgnorePatterns

  -- `MemDbStash::new`
  unfoldable pub stash_new : Config → Result StashParts
  stash_new config = do
    path ← get_symbol_dir out config
    s3 ← from_config config
    ignore_patterns ← get_ignore_patterns config
    ok (record { path = path; s3 = s3; ignore_patterns = ignore_patterns })
