-- ===== src/Dsn/Config.antt =====
-- dsn.go and auth.go: the configuration that a DSN is parsed into.
use gosnowflake.Base.{Option, none, List, [], Bool, false}
use gosnowflake.Base.Text.{Bytes}
use gosnowflake.Base.Int.{ℤ, pos}

-- `ConfigBool`.
pub data ConfigBool : Type 0 where
  config_bool_not_set : ConfigBool
  config_bool_true : ConfigBool
  config_bool_false : ConfigBool

-- `OCSPFailOpenMode`.
pub data OcspFailOpenMode : Type 0 where
  ocsp_fail_open_not_set : OcspFailOpenMode
  ocsp_fail_open_true : OcspFailOpenMode
  ocsp_fail_open_false : OcspFailOpenMode

-- `AuthType`.
pub data AuthType : Type 0 where
  snowflake : AuthType
  oauth : AuthType
  external_browser : AuthType
  okta : AuthType
  jwt : AuthType
  token_accessor : AuthType
  username_password_mfa : AuthType
  pat : AuthType
  oauth_authorization_code : AuthType
  oauth_client_credentials : AuthType
  workload_identity_federation : AuthType

-- `Config`, of the fields that a DSN can set. `Url` is the library's URL and `Key` its private key.
-- Timeouts are in nanoseconds. `params` has a name once.
pub record Config (Url Key : Type 0) : Type 0 where
  pub account : Bytes
  pub user : Bytes
  pub password : Bytes
  pub database : Bytes
  pub schema : Bytes
  pub warehouse : Bytes
  pub role : Bytes
  pub region : Bytes
  pub oauth_client_id : Bytes
  pub oauth_client_secret : Bytes
  pub oauth_authorization_url : Bytes
  pub oauth_token_request_url : Bytes
  pub oauth_redirect_uri : Bytes
  pub oauth_scope : Bytes
  pub enable_single_use_refresh_tokens : Bool
  pub validate_default_parameters : ConfigBool
  pub params : List (Bytes × Bytes)
  pub protocol : Bytes
  pub host : Bytes
  pub port : ℤ
  pub authenticator : AuthType
  pub passcode : Bytes
  pub passcode_in_password : Bool
  pub okta_url : Option Url
  pub login_timeout : ℤ
  pub request_timeout : ℤ
  pub jwt_expire_timeout : ℤ
  pub client_timeout : ℤ
  pub jwt_client_timeout : ℤ
  pub external_browser_timeout : ℤ
  pub cloud_storage_timeout : ℤ
  pub max_retry_count : ℤ
  pub application : Bytes
  pub disable_ocsp_checks : Bool
  pub insecure_mode : Bool
  pub ocsp_fail_open : OcspFailOpenMode
  pub token : Bytes
  pub private_key : Option Key
  pub tracing : Bytes
  pub tmp_dir_path : Bytes
  pub client_request_mfa_token : ConfigBool
  pub client_store_temporary_credential : ConfigBool
  pub disable_query_context_cache : Bool
  pub include_retry_reason : ConfigBool
  pub client_config_file : Bytes
  pub disable_console_login : ConfigBool
  pub disable_saml_url_check : ConfigBool
  pub workload_identity_provider : Bytes
  pub workload_identity_entra_resource : Bytes

-- The configuration that `ParseDSN` starts with.
abbrev pub new_config : {Url Key : Type 0} → Config Url Key
new_config = record {
  account = [];
  user = [];
  password = [];
  database = [];
  schema = [];
  warehouse = [];
  role = [];
  region = [];
  oauth_client_id = [];
  oauth_client_secret = [];
  oauth_authorization_url = [];
  oauth_token_request_url = [];
  oauth_redirect_uri = [];
  oauth_scope = [];
  enable_single_use_refresh_tokens = false;
  validate_default_parameters = config_bool_not_set;
  params = [];
  protocol = [];
  host = [];
  port = pos 0;
  authenticator = snowflake;
  passcode = [];
  passcode_in_password = false;
  okta_url = none;
  login_timeout = pos 0;
  request_timeout = pos 0;
  jwt_expire_timeout = pos 0;
  client_timeout = pos 0;
  jwt_client_timeout = pos 0;
  external_browser_timeout = pos 0;
  cloud_storage_timeout = pos 0;
  max_retry_count = pos 0;
  application = [];
  disable_ocsp_checks = false;
  insecure_mode = false;
  ocsp_fail_open = ocsp_fail_open_not_set;
  token = [];
  private_key = none;
  tracing = [];
  tmp_dir_path = [];
  client_request_mfa_token = config_bool_not_set;
  client_store_temporary_credential = config_bool_not_set;
  disable_query_context_cache = false;
  include_retry_reason = config_bool_not_set;
  client_config_file = [];
  disable_console_login = config_bool_not_set;
  disable_saml_url_check = config_bool_not_set;
  workload_identity_provider = [];
  workload_identity_entra_resource = [];
}

-- The errors; `malformed` is one that the Go library returned for the text.
pub data DsnError : Type 0 where
  empty_account : DsnError
  empty_username : DsnError
  empty_password : DsnError
  empty_password_and_token : DsnError
  empty_oauth_parameters : DsnError
  failed_to_parse_host : Bytes → DsnError
  failed_to_parse_port : Bytes → DsnError
  failed_to_parse_authenticator : Bytes → DsnError
  private_key_parse_error : DsnError
  malformed : Bytes → DsnError

-- `panics` is a slice out of range.
pub data Outcome {ℓ} (A : Type ℓ) : Type ℓ where
  ok : A → Outcome A
  err : DsnError → Outcome A
  panics : Outcome A

infixl 5 ◌>>=◌
abbrev pub ◌>>=◌ : {A B : Type 0} → Outcome A → (A → Outcome B) → Outcome B
ok a >>= f = f a
err e >>= f = err e
panics >>= f = panics

abbrev pub or_else : {A : Type 0} → DsnError → Option A → Outcome A
or_else e none = err e
or_else e (Option.some a) = ok a

-- What the Go library does: `url.QueryUnescape`, `strconv.Atoi` and `strconv.ParseInt`, `url.Parse`
-- and the scheme of a URL, `base64.URLEncoding.DecodeString` and `x509.ParsePKCS8PrivateKey`.
pub record Library (Url Key : Type 0) : Type 0 where
  pub query_unescape : Bytes → Option Bytes
  pub parse_int : Bytes → Option ℤ
  pub parse_url : Bytes → Option Url
  pub scheme : Url → Bytes
  pub decode_base64 : Bytes → Option Bytes
  pub parse_private_key : Bytes → Option Key
