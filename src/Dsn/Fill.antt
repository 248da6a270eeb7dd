-- ===== src/Dsn/Fill.antt =====
-- dsn.go: `fillMissingConfigParameters`, in the order of its checks, and `ocspMode`.
use gosnowflake.Base.{
  none, some, Bool, true, false, ◌++◌, ◌∷◌, [], take, suc, zero, if◌then◌else◌, ◌&&◌, length, ◌||◌,
  ◌==◌,
}
use gosnowflake.Base.Text.{
  Bytes, codes, to_lower, last_index, contains, only_spaces, is_blank, trim, has_suffix, bytes_eq,
}
use gosnowflake.Base.Int.{ℤ, pos, negsuc, eqb_ℤ}
use gosnowflake.Dsn.Config.{
  Config, ConfigBool, config_bool_not_set, config_bool_true, OcspFailOpenMode,
  ocsp_fail_open_not_set, ocsp_fail_open_true, ocsp_fail_open_false, AuthType, snowflake, oauth,
  external_browser, okta, jwt, token_accessor, username_password_mfa, pat, oauth_authorization_code,
  oauth_client_credentials, workload_identity_federation, Outcome, ok, err, ◌>>=◌, empty_account,
  empty_username, empty_password, empty_password_and_token, empty_oauth_parameters,
  failed_to_parse_host,
}
use gosnowflake.Dsn.Host.{
  default_domain, extract_domain_from_host, domain_of_host, get_domain_based_on_region,
  extract_region_from_account,
}

-- `authRequiresUser`.
unfoldable pub auth_requires_user : AuthType → Bool
auth_requires_user oauth = false
auth_requires_user token_accessor = false
auth_requires_user external_browser = false
auth_requires_user pat = false
auth_requires_user oauth_authorization_code = false
auth_requires_user oauth_client_credentials = false
auth_requires_user workload_identity_federation = false
auth_requires_user snowflake = true
auth_requires_user okta = true
auth_requires_user jwt = true
auth_requires_user username_password_mfa = true

-- `authRequiresPassword`.
unfoldable pub auth_requires_password : AuthType → Bool
auth_requires_password oauth = false
auth_requires_password token_accessor = false
auth_requires_password external_browser = false
auth_requires_password jwt = false
auth_requires_password pat = false
auth_requires_password oauth_authorization_code = false
auth_requires_password oauth_client_credentials = false
auth_requires_password workload_identity_federation = false
auth_requires_password snowflake = true
auth_requires_password okta = true
auth_requires_password username_password_mfa = true

-- `authRequiresEitherPasswordOrToken`.
unfoldable pub auth_requires_either_password_or_token : AuthType → Bool
auth_requires_either_password_or_token pat = true
auth_requires_either_password_or_token _ = false

-- `authRequiresClientIDAndSecret`.
unfoldable pub auth_requires_client_id_and_secret : AuthType → Bool
auth_requires_client_id_and_secret oauth_authorization_code = true
auth_requires_client_id_and_secret _ = false

-- A timeout or a count that is 0 takes its default.
abbrev pub or_default : ℤ → ℤ → ℤ
or_default n d = if eqb_ℤ n (pos 0) then d else n

abbrev pub or_fail_open : OcspFailOpenMode → OcspFailOpenMode
or_fail_open ocsp_fail_open_not_set = ocsp_fail_open_true
or_fail_open m = m

abbrev pub or_true : ConfigBool → ConfigBool
or_true config_bool_not_set = config_bool_true
or_true b = b

module _ {Url Key : Type 0} where
  -- The account of a global host loses what follows its last dash.
  unfoldable pub global_account : Config Url Key → Bytes
  unfolding last_index contains to_lower
  global_account c = elim (last_index c.account (codes "-")) [
    | none ↦ c.account
    | some zero ↦ c.account
    | some (suc i) ↦
        if contains (to_lower c.host) (codes ".global.") then take (suc i) c.account else c.account
  ]

  unfoldable pub strip_global : Config Url Key → Config Url Key
  unfolding global_account
  strip_global c = record c { account = global_account c }

  -- The checks of the account and of the credentials.
  unfoldable pub check_credentials : Config Url Key → Outcome (Config Url Key)
  unfolding only_spaces is_blank auth_requires_user auth_requires_password
      auth_requires_either_password_or_token auth_requires_client_id_and_secret
  check_credentials c =
      if only_spaces c.account
      then err empty_account
      else if auth_requires_user c.authenticator && is_blank c.user
      then err empty_username
      else if auth_requires_password c.authenticator && is_blank c.password
      then err empty_password
      else if auth_requires_either_password_or_token c.authenticator
          && (is_blank c.password && is_blank c.token)
      then err empty_password_and_token
      else if auth_requires_client_id_and_secret c.authenticator
          && (is_blank c.oauth_client_id || is_blank c.oauth_client_secret)
      then err empty_oauth_parameters
      else ok c

  -- The protocol, the port and the region.
  unfoldable pub fill_protocol : Config Url Key → Config Url Key
  unfolding only_spaces trim
  fill_protocol c = record c {
    protocol = if only_spaces c.protocol then codes "https" else c.protocol;
    port = or_default c.port (pos 443);
    region = trim c.region;
  }

  -- A region that the host's prefix does not end with is put in front of the domain.
  unfoldable pub region_host : Config Url Key → Bytes
  unfolding extract_domain_from_host has_suffix
  region_host c = if bytes_eq c.region [] then c.host else elim (extract_domain_from_host c.host) [
    | none ↦ c.host
    | some (domain, i) ↦
        if has_suffix (take i c.host) c.region
        then c.host
        else take i c.host ++ (b'.' ∷ (c.region ++ domain))
  ]

  unfoldable pub add_region : Config Url Key → Config Url Key
  unfolding region_host
  add_region c = record c { host = region_host c }

  -- The host of the account.
  unfoldable pub account_host : Config Url Key → Bytes
  unfolding get_domain_based_on_region extract_region_from_account
  account_host c =
      if bytes_eq c.region []
      then elim (extract_region_from_account c.account) [
        | none ↦ c.account ++ default_domain
        | some (region, dot) ↦
            if bytes_eq region []
            then c.account ++ default_domain
            else c.account ++ get_domain_based_on_region region
      ]
      else c.account ++ (b'.' ∷ (c.region ++ get_domain_based_on_region c.region))

  unfoldable pub fill_host : Config Url Key → Config Url Key
  unfolding account_host
  fill_host c = record c { host = if bytes_eq c.host [] then account_host c else c.host }

  -- The timeouts, in nanoseconds, and the number of retries.
  unfoldable pub fill_timeouts : Config Url Key → Config Url Key
  fill_timeouts c = record c {
    login_timeout = or_default c.login_timeout (pos 300000000000);
    request_timeout = or_default c.request_timeout (pos 0);
    jwt_expire_timeout = or_default c.jwt_expire_timeout (pos 60000000000);
    client_timeout = or_default c.client_timeout (pos 900000000000);
    jwt_client_timeout = or_default c.jwt_client_timeout (pos 10000000000);
    external_browser_timeout = or_default c.external_browser_timeout (pos 120000000000);
    cloud_storage_timeout = or_default c.cloud_storage_timeout (negsuc 0);
    max_retry_count = or_default c.max_retry_count (pos 7);
  }

  -- The application and the flags.
  unfoldable pub fill_flags : Config Url Key → Config Url Key
  unfolding only_spaces
  fill_flags c = record c {
    application = if only_spaces c.application then codes "Go" else c.application;
    ocsp_fail_open = or_fail_open c.ocsp_fail_open;
    validate_default_parameters = or_true c.validate_default_parameters;
    include_retry_reason = or_true c.include_retry_reason;
  }

  -- The check that the host is more than its domain.
  unfoldable pub check_host : Config Url Key → Outcome (Config Url Key)
  unfolding domain_of_host
  check_host c =
      if length c.host == length (domain_of_host c.host)
      then err (failed_to_parse_host c.host)
      else ok c

  -- `fillMissingConfigParameters`.
  unfoldable pub fill_missing_config_parameters : Config Url Key → Outcome (Config Url Key)
  unfolding strip_global check_credentials fill_protocol add_region fill_host fill_timeouts
      fill_flags check_host
  fill_missing_config_parameters c = check_credentials (strip_global c) >>= λ checked.
      check_host (fill_flags (fill_timeouts (fill_host (add_region (fill_protocol checked)))))

  -- `ocspMode`.
  unfoldable pub ocsp_mode : Config Url Key → Bytes
  ocsp_mode c =
      if c.disable_ocsp_checks || c.insecure_mode then codes "INSECURE" else elim c.ocsp_fail_open [
        | ocsp_fail_open_false ↦ codes "FAIL_CLOSED"
        | _ ↦ codes "FAIL_OPEN"
      ]
