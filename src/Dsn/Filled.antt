-- ===== src/Dsn/Filled.antt =====
-- dsn.go: what `fillMissingConfigParameters` makes sure of.
use gosnowflake.Base.{
  ℕ, Option, none, some, false, true, ◌++◌, ◌∷◌, [], suc, zero, length, ◌≡◌, ◌≢◌, ◌⊎◌, ◌<◌, arith,
  length-drop, Bool, if◌then◌else◌, refl,
}
use gosnowflake.Base.Text.{Bytes, codes, only_spaces, is_blank, last_index, to_lower, bytes_eq}
use gosnowflake.Base.Int.{ℤ, pos, negsuc, eq_of_parts}
use gosnowflake.Dsn.Config.{
  Config, ok, config_bool_not_set, ocsp_fail_open_not_set, ConfigBool, config_bool_true,
  OcspFailOpenMode, config_bool_false, ocsp_fail_open_true, ocsp_fail_open_false,
}
use gosnowflake.Dsn.Host.{
  domain_of_host, extract_domain_from_host, top_level_domain_prefix, get_domain_based_on_region,
  default_domain, extract_region_from_account,
}
use gosnowflake.Dsn.Defaults.{Defaults, filled}
use gosnowflake.Dsn.Fill.{
  fill_protocol, add_region, account_host, fill_host, fill_timeouts, fill_flags, check_host,
  auth_requires_user, auth_requires_password, auth_requires_either_password_or_token,
  auth_requires_client_id_and_secret, or_default, or_true, region_host, or_fail_open,
}

-- The domain of a host is a proper part of it.
domain_of_host-shorter : (h : Bytes) → h ≢ [] → length (domain_of_host h) < length h
unfolding domain_of_host extract_domain_from_host
domain_of_host-shorter [] n = absurd (n refl)
domain_of_host-shorter (x ∷ h) n = at (last_index (to_lower (x ∷ h)) top_level_domain_prefix) refl
  where
    at :
        (i : Option ℕ)
        → last_index (to_lower (x ∷ h)) top_level_domain_prefix ≡ i
        → length (domain_of_host (x ∷ h)) < length (x ∷ h)
    at none e = rw (e, extract_domain_from_host, domain_of_host) (omega arith)
    at (some zero) e = rw (e, extract_domain_from_host, domain_of_host) (omega arith)
    at (some (suc j)) e =
        rw (e, extract_domain_from_host, domain_of_host) (omega (arith, length-drop j h))

append-not_empty : (xs ys : Bytes) → ys ≢ [] → xs ++ ys ≢ []
append-not_empty [] ys n e = n e
append-not_empty (x ∷ xs) ys n e = cc

get_domain_based_on_region-not_empty : (r : Bytes) → get_domain_based_on_region r ≢ []
unfolding get_domain_based_on_region
get_domain_based_on_region-not_empty r e = ground arith

or_default-not_zero : (n d : ℤ) → d ≢ pos 0 → or_default n d ≢ pos 0
or_default-not_zero n d h e = ground (arith, eq_of_parts n (pos 0), h)

or_true-set : (b : ConfigBool) → or_true b ≢ config_bool_not_set
or_true-set config_bool_not_set e = cc
or_true-set config_bool_true e = cc
or_true-set config_bool_false e = cc

or_fail_open-set : (m : OcspFailOpenMode) → or_fail_open m ≢ ocsp_fail_open_not_set
or_fail_open-set ocsp_fail_open_not_set e = cc
or_fail_open-set ocsp_fail_open_true e = cc
or_fail_open-set ocsp_fail_open_false e = cc

-- A text that only spaces make empty takes its default.
default-given :
    (s d : Bytes) → only_spaces d ≡ false → only_spaces (if only_spaces s then d else s) ≡ false
default-given s d h = ground arith

default-not_empty : (s d : Bytes) → d ≢ [] → (if bytes_eq s [] then d else s) ≢ []
unfolding bytes_eq
default-not_empty [] d h = h
default-not_empty (x ∷ s) d h = λ e. cc

-- Two texts of which neither is empty.
if-not_empty : (b : Bool) (s t : Bytes) → s ≢ [] → t ≢ [] → (if b then s else t) ≢ []
if-not_empty true s t hs ht = hs
if-not_empty false s t hs ht = ht

of_account :
    (a : Bytes) (found : Option (Bytes × ℕ))
    → (elim found [
      | none ↦ a ++ default_domain
      | some (region, dot) ↦
          if bytes_eq region [] then a ++ default_domain else a ++ get_domain_based_on_region region
    ])
      ≢ []
of_account a none = append-not_empty a default_domain λ e. cc
of_account a (some (region, dot)) =
    if-not_empty (bytes_eq region []) _ _ (append-not_empty a default_domain λ e. cc)
      (append-not_empty a _ (get_domain_based_on_region-not_empty region))

module _ {Url Key : Type 0} where
  -- The account and the credentials that the authenticator needs are given.
  pub record HasCredentials (c : Config Url Key) : Type 0 where
    pub account_given : only_spaces c.account ≡ false
    pub user_given : (auth_requires_user c.authenticator ≡ false) ⊎ (is_blank c.user ≡ false)
    pub password_given :
        (auth_requires_password c.authenticator ≡ false) ⊎ (is_blank c.password ≡ false)
    pub token_given :
        (auth_requires_either_password_or_token c.authenticator ≡ false)
        ⊎ ((is_blank c.password ≡ false) ⊎ (is_blank c.token ≡ false))
    pub client_given :
        (auth_requires_client_id_and_secret c.authenticator ≡ false)
        ⊎ ((is_blank c.oauth_client_id ≡ false) × (is_blank c.oauth_client_secret ≡ false))

  -- Everything that has a default is set; `request_timeout` may be 0, which means none.
  pub record HasDefaults (c : Config Url Key) : Type 0 where
    pub host_set : c.host ≢ []
    pub protocol_set : only_spaces c.protocol ≡ false
    pub port_set : c.port ≢ pos 0
    pub login_timeout_set : c.login_timeout ≢ pos 0
    pub jwt_expire_timeout_set : c.jwt_expire_timeout ≢ pos 0
    pub client_timeout_set : c.client_timeout ≢ pos 0
    pub jwt_client_timeout_set : c.jwt_client_timeout ≢ pos 0
    pub external_browser_timeout_set : c.external_browser_timeout ≢ pos 0
    pub cloud_storage_timeout_set : c.cloud_storage_timeout ≢ pos 0
    pub max_retry_count_set : c.max_retry_count ≢ pos 0
    pub application_set : only_spaces c.application ≡ false
    pub ocsp_fail_open_set : c.ocsp_fail_open ≢ ocsp_fail_open_not_set
    pub validate_set : c.validate_default_parameters ≢ config_bool_not_set
    pub retry_reason_set : c.include_retry_reason ≢ config_bool_not_set

  pub check_host-ok : (c : Config Url Key) → c.host ≢ [] → check_host c ≡ ok c
  unfolding check_host
  check_host-ok c n = let shorter = domain_of_host-shorter c.host n in ground arith

  account_host-not_empty : (c : Config Url Key) → account_host c ≢ []
  unfolding account_host
  account_host-not_empty c =
      if-not_empty (bytes_eq c.region []) _ _
        (of_account c.account (extract_region_from_account c.account))
        (append-not_empty c.account _ λ e. cc)

  pub filled-HasDefaults : (c : Config Url Key) → HasDefaults (filled c)
  unfolding fill_flags fill_timeouts fill_host add_region fill_protocol
  filled-HasDefaults c = record {
    host_set =
        default-not_empty (region_host (fill_protocol c)) _
          (account_host-not_empty (add_region (fill_protocol c)));
    protocol_set = default-given c.protocol (codes "https") refl;
    port_set = or_default-not_zero c.port (pos 443) λ e. cc;
    login_timeout_set = or_default-not_zero c.login_timeout (pos 300000000000) λ e. cc;
    jwt_expire_timeout_set = or_default-not_zero c.jwt_expire_timeout (pos 60000000000) λ e. cc;
    client_timeout_set = or_default-not_zero c.client_timeout (pos 900000000000) λ e. cc;
    jwt_client_timeout_set = or_default-not_zero c.jwt_client_timeout (pos 10000000000) λ e. cc;
    external_browser_timeout_set =
        or_default-not_zero c.external_browser_timeout (pos 120000000000) λ e. cc;
    cloud_storage_timeout_set = or_default-not_zero c.cloud_storage_timeout (negsuc 0) λ e. cc;
    max_retry_count_set = or_default-not_zero c.max_retry_count (pos 7) λ e. cc;
    application_set = default-given c.application (codes "Go") refl;
    ocsp_fail_open_set = or_fail_open-set c.ocsp_fail_open;
    validate_set = or_true-set c.validate_default_parameters;
    retry_reason_set = or_true-set c.include_retry_reason;
  }
