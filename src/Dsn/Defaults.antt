-- ===== src/Dsn/Defaults.antt =====
-- dsn.go: what `fillMissingConfigParameters` makes of each field.
use gosnowflake.Base.{
  ◌≡◌, ◌≢◌, ◌⊎◌, true, false, [], Bool-cases, inl, inr, arith, refl, if◌then◌else◌, ap, ◌∙◌, sym,
  ◌∷◌, if_true,
}
use gosnowflake.Base.Text.{Bytes, codes, only_spaces, trim, bytes_eq}
use gosnowflake.Base.Int.{ℤ, pos, negsuc, eqb_ℤ, eq_of_parts}
use gosnowflake.Dsn.Config.{
  Config, ConfigBool, config_bool_not_set, config_bool_true, config_bool_false, OcspFailOpenMode,
  ocsp_fail_open_not_set, ocsp_fail_open_true, ocsp_fail_open_false,
}
use gosnowflake.Dsn.Fill.{
  fill_protocol, add_region, fill_host, fill_timeouts, fill_flags, or_default, or_true,
  or_fail_open, strip_global, region_host,
}

-- A number that is 0 has become the default, and any other is kept.
abbrev Defaulted : ℤ → ℤ → ℤ → Type 0
Defaulted n d n' = ((n ≡ pos 0) × (n' ≡ d)) ⊎ ((n ≢ pos 0) × (n' ≡ n))

-- A text of spaces has become the default, and any other is kept.
abbrev TextDefaulted : Bytes → Bytes → Bytes → Type 0
TextDefaulted s d s' = ((only_spaces s ≡ true) × (s' ≡ d)) ⊎ ((only_spaces s ≡ false) × (s' ≡ s))

-- A flag that is not set has become true, and any other is kept.
abbrev FlagDefaulted : ConfigBool → ConfigBool → Type 0
FlagDefaulted b b' =
    ((b ≡ config_bool_not_set) × (b' ≡ config_bool_true)) ⊎ ((b ≢ config_bool_not_set) × (b' ≡ b))

abbrev ModeDefaulted : OcspFailOpenMode → OcspFailOpenMode → Type 0
ModeDefaulted m m' =
    ((m ≡ ocsp_fail_open_not_set) × (m' ≡ ocsp_fail_open_true))
    ⊎ ((m ≢ ocsp_fail_open_not_set) × (m' ≡ m))

or_default-Defaulted : (n d : ℤ) → Defaulted n d (or_default n d)
or_default-Defaulted n d = elim (Bool-cases (eqb_ℤ n (pos 0))) [
  | inl zero_given ↦ inl (ground (arith, eq_of_parts n (pos 0)), rw zero_given refl)
  | inr given ↦ inr (λ e. ground arith, rw given refl)
]

text-Defaulted : (s d : Bytes) → TextDefaulted s d (if only_spaces s then d else s)
text-Defaulted s d = ground arith

or_true-Defaulted : (b : ConfigBool) → FlagDefaulted b (or_true b)
or_true-Defaulted config_bool_not_set = inl (refl, refl)
or_true-Defaulted config_bool_true = inr (λ e. cc, refl)
or_true-Defaulted config_bool_false = inr (λ e. cc, refl)

or_fail_open-Defaulted : (m : OcspFailOpenMode) → ModeDefaulted m (or_fail_open m)
or_fail_open-Defaulted ocsp_fail_open_not_set = inl (refl, refl)
or_fail_open-Defaulted ocsp_fail_open_true = inr (λ e. cc, refl)
or_fail_open-Defaulted ocsp_fail_open_false = inr (λ e. cc, refl)

given-kept : (s d : Bytes) → s ≢ [] → (if bytes_eq s [] then d else s) ≡ s
unfolding bytes_eq
given-kept [] d n = absurd (n refl)
given-kept (x ∷ s) d n = refl

module _ {Url Key : Type 0} where
  -- The configuration behind the checks.
  abbrev pub filled : Config Url Key → Config Url Key
  filled c = fill_flags (fill_timeouts (fill_host (add_region (fill_protocol c))))

  -- The second configuration is the first one with its defaults: a timeout is in nanoseconds, the
  -- request timeout is 0 by default and that of the cloud's storage -1. The region loses the spaces
  -- around it, and a host that is given without a region is kept.
  pub record Defaults (c c' : Config Url Key) : Type 0 where
    pub port_from : Defaulted c.port (pos 443) c'.port
    pub login_timeout_from : Defaulted c.login_timeout (pos 300000000000) c'.login_timeout
    pub request_timeout_from : Defaulted c.request_timeout (pos 0) c'.request_timeout
    pub jwt_expire_timeout_from :
        Defaulted c.jwt_expire_timeout (pos 60000000000) c'.jwt_expire_timeout
    pub client_timeout_from : Defaulted c.client_timeout (pos 900000000000) c'.client_timeout
    pub jwt_client_timeout_from :
        Defaulted c.jwt_client_timeout (pos 10000000000) c'.jwt_client_timeout
    pub external_browser_timeout_from :
        Defaulted c.external_browser_timeout (pos 120000000000) c'.external_browser_timeout
    pub cloud_storage_timeout_from :
        Defaulted c.cloud_storage_timeout (negsuc 0) c'.cloud_storage_timeout
    pub max_retry_count_from : Defaulted c.max_retry_count (pos 7) c'.max_retry_count
    pub protocol_from : TextDefaulted c.protocol (codes "https") c'.protocol
    pub application_from : TextDefaulted c.application (codes "Go") c'.application
    pub ocsp_fail_open_from : ModeDefaulted c.ocsp_fail_open c'.ocsp_fail_open
    pub validate_from : FlagDefaulted c.validate_default_parameters c'.validate_default_parameters
    pub retry_reason_from : FlagDefaulted c.include_retry_reason c'.include_retry_reason
    pub region_from : c'.region ≡ trim c.region
    pub host_kept : trim c.region ≡ [] → c.host ≢ [] → c'.host ≡ c.host
    pub user_kept : c'.user ≡ c.user
    pub password_kept : c'.password ≡ c.password
    pub token_kept : c'.token ≡ c.token
    pub authenticator_kept : c'.authenticator ≡ c.authenticator
    pub database_kept : c'.database ≡ c.database
    pub schema_kept : c'.schema ≡ c.schema
    pub warehouse_kept : c'.warehouse ≡ c.warehouse
    pub role_kept : c'.role ≡ c.role
    pub params_kept : c'.params ≡ c.params

  region_host-kept :
      (c : Config Url Key) → trim c.region ≡ [] → region_host (fill_protocol c) ≡ c.host
  unfolding region_host fill_protocol
  region_host-kept c r = if_true _ _ (ap (λ (t : Bytes). bytes_eq t []) r)

  filled-host_kept :
      (c : Config Url Key) → trim c.region ≡ [] → c.host ≢ [] → (filled c).host ≡ c.host
  unfolding fill_flags fill_timeouts fill_host add_region
  filled-host_kept c r n =
      let e = region_host-kept c r in
      given-kept (region_host (fill_protocol c)) _ (λ q. n (sym e ∙ q)) ∙ e

  pub filled-Defaults : (c : Config Url Key) → Defaults c (filled (strip_global c))
  unfolding fill_flags fill_timeouts fill_host add_region fill_protocol strip_global
  filled-Defaults c = record {
    port_from = or_default-Defaulted c.port (pos 443);
    login_timeout_from = or_default-Defaulted c.login_timeout (pos 300000000000);
    request_timeout_from = or_default-Defaulted c.request_timeout (pos 0);
    jwt_expire_timeout_from = or_default-Defaulted c.jwt_expire_timeout (pos 60000000000);
    client_timeout_from = or_default-Defaulted c.client_timeout (pos 900000000000);
    jwt_client_timeout_from = or_default-Defaulted c.jwt_client_timeout (pos 10000000000);
    external_browser_timeout_from =
        or_default-Defaulted c.external_browser_timeout (pos 120000000000);
    cloud_storage_timeout_from = or_default-Defaulted c.cloud_storage_timeout (negsuc 0);
    max_retry_count_from = or_default-Defaulted c.max_retry_count (pos 7);
    protocol_from = text-Defaulted c.protocol (codes "https");
    application_from = text-Defaulted c.application (codes "Go");
    ocsp_fail_open_from = or_fail_open-Defaulted c.ocsp_fail_open;
    validate_from = or_true-Defaulted c.validate_default_parameters;
    retry_reason_from = or_true-Defaulted c.include_retry_reason;
    region_from = refl;
    host_kept = filled-host_kept (strip_global c);
    user_kept = refl;
    password_kept = refl;
    token_kept = refl;
    authenticator_kept = refl;
    database_kept = refl;
    schema_kept = refl;
    warehouse_kept = refl;
    role_kept = refl;
    params_kept = refl;
  }
