-- ===== src/Config/Laws.antt =====
-- src/config.rs and src/cli.rs: what the settings come to.
use symbolserver.Prelude.{◌≡◌, ◌↔◌, refl, ap, sym, ◌∙◌, true, not}
use symbolserver.Prelude.{inl, inr, Bool-cases, if◌then◌else◌}
use symbolserver.Prelude.Map.{is_some}
use symbolserver.Prelude.Order.{◌=?◌, =?_refl, eq_of_=?, list_ord, nat_ord}
use symbolserver.Errors.{Result, ok, err, bad_config_key}
use symbolserver.Errors.Laws.{>>=-middle}
use symbolserver.Text.{codes}
use symbolserver.Config.{Config, Url, Outside, bucket_url, get_aws_bucket_url, bucket_key}

module _ {Region Level Duration : Type 0} (out : Outside Region Level Duration) where
  -- The checks behind the parsing.
  abbrev checked : Url → Result Url
  checked u =
      if not (u.scheme =? codes "s3")
      then err (bad_config_key bucket_key (codes "The scheme for the bucket URL needs to be s3"))
      else (if is_some u.host_str
          then ok u
          else err (bad_config_key bucket_key (codes "The bucket URL is missing a name")))

  checked-ok :
      (u url : Url)
      → checked u ≡ ok url
      → (u ≡ url) × (u.scheme ≡ codes "s3") × (is_some u.host_str ≡ true)
  checked-ok u url run = elim (Bool-cases (u.scheme =? codes "s3")) [
    | inr other ↦
        let e : checked u
            ≡ err
                (bad_config_key bucket_key (codes "The scheme for the bucket URL needs to be s3")) =
          rw (other, checked) refl in
        absurd (cc (e, run))
    | inl same ↦ elim (Bool-cases (is_some u.host_str)) [
      | inr nameless ↦
          let e : checked u
              ≡ err (bad_config_key bucket_key (codes "The bucket URL is missing a name")) =
            rw (same, nameless, checked) refl in
          absurd (cc (e, run))
      | inl named ↦
          let e : checked u ≡ ok u = rw (same, named, checked) refl in
          let is : u ≡ url = cc (e, run) in (is, eq_of_=? u.scheme (codes "s3") same, named)
    ]
  ]

  -- The URL of the bucket is handed out exactly if it was given and could be parsed, its scheme is
  -- s3 and it has a host.
  pub get_aws_bucket_url-exact :
      (self : Config) (url : Url)
      → (get_aws_bucket_url out self ≡ ok url) ↔ (
          (bucket_url out self ≡ ok url)
          × (url.scheme ≡ codes "s3")
          × (is_some url.host_str ≡ true))
  unfolding get_aws_bucket_url
  get_aws_bucket_url-exact self url = (
    λ run.
        let (u, found, e) = >>=-middle (bucket_url out self) checked url run in
        let (is, scheme, named) = checked-ok u url e in
        (
          found ∙ ap ok is,
          ap (λ (v : Url). v.scheme) (sym is) ∙ scheme,
          ap (λ (v : Url). is_some v.host_str) (sym is) ∙ named,
        ),
    λ (found, scheme, named).
        let same : (url.scheme =? codes "s3") ≡ true = rw scheme (=?_refl (codes "s3")) in
        rw (found, same, named) refl,
  )
