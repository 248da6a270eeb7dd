-- ===== src/Dsn/Params.antt =====
-- dsn.go: `parseDSNParams`, with `determineAuthenticatorType` of auth.go and `findByPrefix` of
-- util.go.
use gosnowflake.Base.{
  ℕ, Option, none, some, List, [], ◌∷◌, Bool, true, false, ◌%◌, ◌*◌, ◌||◌, if◌then◌else◌, take,
  ◌++◌, ◌^◌, suc, drop, ltb, ◌-◌, zero,
}
use gosnowflake.Base.Text.{
  Bytes, codes, to_lower, to_upper, has_prefix, bytes_eq, split, only_spaces, index_byte,
}
use gosnowflake.Base.Int.{ℤ, pos, negsuc}
use gosnowflake.Dsn.Config.{
  Config, Library, ConfigBool, config_bool_true, config_bool_false, ocsp_fail_open_true,
  ocsp_fail_open_false, AuthType, snowflake, oauth, external_browser, okta, jwt, token_accessor,
  username_password_mfa, pat, oauth_authorization_code, oauth_client_credentials,
  workload_identity_federation, Outcome, ok, err, panics, ◌>>=◌, or_else,
  failed_to_parse_authenticator, private_key_parse_error, malformed,
}

-- The `int64` of a number of bits.
abbrev wrap_64 : ℕ → ℤ
wrap_64 n = let r = n % 2 ^ 64 in if ltb r (2 ^ 63) then pos r else negsuc (2 ^ 64 - r - 1)

-- A number of seconds as a `time.Duration`, which wraps.
unfoldable pub seconds : ℤ → ℤ
seconds (pos n) = wrap_64 (n * 1000000000)
seconds (negsuc n) = wrap_64 (2 ^ 64 - (suc n * 1000000000) % 2 ^ 64)

-- `strconv.ParseBool`.
unfoldable pub parse_bool : Bytes → Option Bool
parse_bool s =
    if any_of s
      (codes "1" ∷ codes "t" ∷ codes "T" ∷ codes "TRUE" ∷ codes "true" ∷ codes "True" ∷ [])
    then some true
    else if any_of s
        (codes "0" ∷ codes "f" ∷ codes "F" ∷ codes "FALSE" ∷ codes "false" ∷ codes "False" ∷ [])
    then some false
    else none
  where
    any_of : Bytes → List Bytes → Bool
    any_of s [] = false
    any_of s (w ∷ ws) = bytes_eq s w || any_of s ws

abbrev pub config_bool : Bool → ConfigBool
config_bool b = if b then config_bool_true else config_bool_false

-- `findByPrefix`; -1 is `none`.
unfoldable pub find_by_prefix : List Bytes → Bytes → Option ℕ
find_by_prefix [] prefix = none
find_by_prefix (v ∷ vs) prefix =
    if has_prefix v prefix
    then some 0
    else elim (find_by_prefix vs prefix) [ none ↦ none | some i ↦ some (suc i) ]

-- The names of the authenticators, as `determineAuthenticatorType` compares them.
abbrev auth_types : List (Bytes × AuthType)
auth_types =
    (codes "SNOWFLAKE", snowflake)
    ∷ (codes "OAUTH", oauth)
    ∷ (codes "SNOWFLAKE_JWT", jwt)
    ∷ (codes "EXTERNALBROWSER", external_browser)
    ∷ (codes "USERNAME_PASSWORD_MFA", username_password_mfa)
    ∷ (codes "TOKENACCESSOR", token_accessor)
    ∷ (codes "PROGRAMMATIC_ACCESS_TOKEN", pat)
    ∷ (codes "OAUTH_AUTHORIZATION_CODE", oauth_authorization_code)
    ∷ (codes "OAUTH_CLIENT_CREDENTIALS", oauth_client_credentials)
    ∷ (codes "WORKLOAD_IDENTITY", workload_identity_federation)
    ∷ []

-- The case of a switch on a name.
unfoldable pub find_case : {A : Type 0} → Bytes → List (Bytes × A) → Option A
find_case name [] = none
find_case name (c ∷ cs) = if bytes_eq name c.0 then some c.1 else find_case name cs

-- `strings.SplitN(v, "=", 2)`, where it has two parts.
unfoldable pub split_param : Bytes → Option (Bytes × Bytes)
unfolding index_byte
split_param v = elim (index_byte v b'=') [ none ↦ none | some i ↦ some (take i v, drop (suc i) v) ]

-- `paramsSlice` without `insecureMode`, where `disableOCSPChecks` is given too: the slices that are
-- joined end one parameter too early, and the first one has no end if `insecureMode` is first.
unfoldable pub drop_insecure_mode : List Bytes → Outcome (List Bytes)
unfolding find_by_prefix
drop_insecure_mode ps = elim (find_by_prefix ps (codes "disableOCSPChecks")) [
  | none ↦ ok ps
  | some d ↦ elim (find_by_prefix ps (codes "insecureMode")) [
    | none ↦ ok ps
    | some zero ↦ panics
    | some (suc i) ↦ ok (take i ps ++ drop (suc (suc i)) ps)
  ]
]

module _ {Url Key : Type 0} (lib : Library Url Key) where
  abbrev C : Type 0
  C = Config Url Key

  -- The Okta case of `determineAuthenticatorType`.
  unfoldable pub okta_authenticator : Bytes → C → Outcome C
  okta_authenticator lower c =
      or_else (failed_to_parse_authenticator lower) (lib.query_unescape lower) >>= λ text.
      or_else (failed_to_parse_authenticator text) (lib.parse_url text) >>= λ url.
      if bytes_eq (lib.scheme url) (codes "https")
      then ok (record c { okta_url = some url; authenticator = okta })
      else err (failed_to_parse_authenticator text)

  -- `determineAuthenticatorType`.
  unfoldable pub determine_authenticator_type : Bytes → C → Outcome C
  unfolding okta_authenticator
  determine_authenticator_type value c =
      if only_spaces value
      then ok (record c { authenticator = snowflake })
      else elim (find_case (to_upper value) auth_types) [
        | some t ↦ ok (record c { authenticator = t })
        | none ↦ okta_authenticator (to_lower value) c
      ]

  -- What a parameter sets, from its value.
  abbrev text : (Bytes → C → C) → Bytes → C → Outcome C
  text set v c = ok (set v c)

  unfoldable pub flag : (Bool → C → C) → Bytes → C → Outcome C
  unfolding parse_bool
  flag set v c = or_else (malformed v) (parse_bool v) >>= λ b. ok (set b c)

  -- `parseTimeout`.
  unfoldable pub timeout : (ℤ → C → C) → Bytes → C → Outcome C
  unfolding seconds
  timeout set v c = or_else (malformed v) (lib.parse_int v) >>= λ n. ok (set (seconds n) c)

  -- The case `privateKey`.
  unfoldable pub set_private_key : Bytes → C → Outcome C
  set_private_key v c = or_else private_key_parse_error (lib.decode_base64 v) >>= λ block.
      or_else private_key_parse_error (lib.parse_private_key block) >>= λ key.
      ok (record c { private_key = some key })

  -- The case `maxRetryCount`.
  unfoldable pub set_max_retry_count : Bytes → C → Outcome C
  set_max_retry_count v c =
      or_else (malformed v) (lib.parse_int v) >>= λ n. ok (record c { max_retry_count = n })

  -- The cases of the switch, in three tables.
  unfoldable pub text_cases : List (Bytes × (Bytes → C → Outcome C))
  text_cases =
      (codes "account", text λ v c. record c { account = v })
      ∷ (codes "warehouse", text λ v c. record c { warehouse = v })
      ∷ (codes "database", text λ v c. record c { database = v })
      ∷ (codes "schema", text λ v c. record c { schema = v })
      ∷ (codes "role", text λ v c. record c { role = v })
      ∷ (codes "region", text λ v c. record c { region = v })
      ∷ (codes "protocol", text λ v c. record c { protocol = v })
      ∷ (codes "passcode", text λ v c. record c { passcode = v })
      ∷ (codes "oauthClientId", text λ v c. record c { oauth_client_id = v })
      ∷ (codes "oauthClientSecret", text λ v c. record c { oauth_client_secret = v })
      ∷ (codes "oauthAuthorizationUrl", text λ v c. record c { oauth_authorization_url = v })
      ∷ (codes "oauthTokenRequestUrl", text λ v c. record c { oauth_token_request_url = v })
      ∷ (codes "oauthRedirectUri", text λ v c. record c { oauth_redirect_uri = v })
      ∷ (codes "oauthScope", text λ v c. record c { oauth_scope = v })
      ∷ (codes "application", text λ v c. record c { application = v })
      ∷ (codes "token", text λ v c. record c { token = v })
      ∷ (codes "workloadIdentityProvider", text λ v c. record c { workload_identity_provider = v })
      ∷ (
        codes "workloadIdentityEntraResource",
        text λ v c. record c { workload_identity_entra_resource = v },
      )
      ∷ (codes "tracing", text λ v c. record c { tracing = v })
      ∷ (codes "tmpDirPath", text λ v c. record c { tmp_dir_path = v })
      ∷ (codes "clientConfigFile", text λ v c. record c { client_config_file = v })
      ∷ []

  unfoldable pub flag_cases : List (Bytes × (Bytes → C → Outcome C))
  unfolding flag
  flag_cases =
      (
        codes "enableSingleUseRefreshTokens",
        flag λ b c. record c { enable_single_use_refresh_tokens = b },
      )
      ∷ (codes "passcodeInPassword", flag λ b c. record c { passcode_in_password = b })
      ∷ (codes "insecureMode", flag λ b c. record c { insecure_mode = b })
      ∷ (codes "disableOCSPChecks", flag λ b c. record c { disable_ocsp_checks = b })
      ∷ (
        codes "ocspFailOpen",
        flag λ b c. record c {
          ocsp_fail_open = if b then ocsp_fail_open_true else ocsp_fail_open_false;
        },
      )
      ∷ (
        codes "validateDefaultParameters",
        flag λ b c. record c { validate_default_parameters = config_bool b },
      )
      ∷ (
        codes "clientRequestMfaToken",
        flag λ b c. record c { client_request_mfa_token = config_bool b },
      )
      ∷ (
        codes "clientStoreTemporaryCredential",
        flag λ b c. record c { client_store_temporary_credential = config_bool b },
      )
      ∷ (codes "disableQueryContextCache", flag λ b c. record c { disable_query_context_cache = b })
      ∷ (codes "includeRetryReason", flag λ b c. record c { include_retry_reason = config_bool b })
      ∷ (
        codes "disableConsoleLogin",
        flag λ b c. record c { disable_console_login = config_bool b },
      )
      ∷ (
        codes "disableSamlURLCheck",
        flag λ b c. record c { disable_saml_url_check = config_bool b },
      )
      ∷ []

  unfoldable pub parsed_cases : List (Bytes × (Bytes → C → Outcome C))
  unfolding timeout set_max_retry_count determine_authenticator_type set_private_key
  parsed_cases =
      (codes "clientTimeout", timeout λ t c. record c { client_timeout = t })
      ∷ (codes "jwtClientTimeout", timeout λ t c. record c { jwt_client_timeout = t })
      ∷ (codes "loginTimeout", timeout λ t c. record c { login_timeout = t })
      ∷ (codes "requestTimeout", timeout λ t c. record c { request_timeout = t })
      ∷ (codes "jwtTimeout", timeout λ t c. record c { jwt_expire_timeout = t })
      ∷ (codes "externalBrowserTimeout", timeout λ t c. record c { external_browser_timeout = t })
      ∷ (codes "cloudStorageTimeout", timeout λ t c. record c { cloud_storage_timeout = t })
      ∷ (codes "maxRetryCount", set_max_retry_count)
      ∷ (codes "authenticator", determine_authenticator_type)
      ∷ (codes "privateKey", set_private_key)
      ∷ []

  -- `urlDecodeIfNeeded`.
  unfoldable pub url_decode_if_needed : Bytes → Bytes
  url_decode_if_needed s = elim (lib.query_unescape s) [ none ↦ s | some t ↦ t ]

  -- An assignment to the map `Params`.
  unfoldable pub put_param : Bytes → Bytes → List (Bytes × Bytes) → List (Bytes × Bytes)
  put_param k v [] = (k, v) ∷ []
  put_param k v (p ∷ ps) = if bytes_eq k p.0 then (k, v) ∷ ps else p ∷ put_param k v ps

  -- The default case: a session variable.
  unfoldable pub set_variable : Bytes → Bytes → C → Outcome C
  unfolding url_decode_if_needed put_param
  set_variable name v c =
      ok (record c { params = put_param (url_decode_if_needed name) v c.params })

  -- The switch of `parseDSNParams`.
  unfoldable pub set_param : Bytes → Bytes → C → Outcome C
  unfolding text_cases flag_cases parsed_cases set_variable find_case
  set_param name v c = elim (find_case name (text_cases ++ (flag_cases ++ parsed_cases))) [
    | some set ↦ set v c
    | none ↦ set_variable name v c
  ]

  -- The loop of `parseDSNParams`.
  unfoldable pub set_params : List Bytes → C → Outcome C
  unfolding split_param set_param
  set_params [] c = ok c
  set_params (v ∷ vs) c = elim (split_param v) [
    | none ↦ set_params vs c
    | some (name, escaped) ↦ or_else (malformed escaped) (lib.query_unescape escaped) >>= λ value.
        set_param name value c >>= set_params vs
  ]

  -- `parseDSNParams`.
  unfoldable pub parse_dsn_params : Bytes → C → Outcome C
  unfolding set_params drop_insecure_mode
  parse_dsn_params params c = drop_insecure_mode (split b'&' params) >>= λ ps. set_params ps c
