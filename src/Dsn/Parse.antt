-- ===== src/Dsn/Parse.antt =====
-- dsn.go: `ParseDSN`. A position behind the `@` stands for `posAt` + 1, which is 0 without an `@`.
use gosnowflake.Base.{
  ℕ, Option, none, some, Bool, true, false, [], take, drop, suc, zero, ◌-◌, get_elem?, length,
  if◌then◌else◌, ◌==◌, ◌&&◌,
}
use gosnowflake.Base.Text.{Bytes, index_byte, bytes_eq}
use gosnowflake.Dsn.Config.{
  Config, new_config, Library, Outcome, ok, ◌>>=◌, or_else, malformed, failed_to_parse_port,
}
use gosnowflake.Dsn.Host.{transform_account_to_host, host_includes_top_level_domain}
use gosnowflake.Dsn.Params.{parse_dsn_params}
use gosnowflake.Dsn.Fill.{fill_missing_config_parameters}

-- `s[a:b]`.
abbrev pub slice : ℕ → ℕ → Bytes → Bytes
slice a b s = take (b - a) (drop a s)

-- `s[i] == c`.
unfoldable pub is_at : Bytes → ℕ → ℕ → Bool
is_at s i c = elim (get_elem? s i) [ none ↦ false | some x ↦ x == c ]

-- The outer loop of `ParseDSN`, below a position and with `posQuestion`: the last slash, and
-- `posQuestion`.
unfoldable pub find_slash : Bytes → ℕ → ℕ → Option ℕ × ℕ
unfolding is_at
find_slash s zero q = (none, q)
find_slash s (suc i) q = elim (is_at s i b'/') [
  | true ↦ (some i, q)
  | false ↦ elim (is_at s i b'?') [ true ↦ find_slash s i i | false ↦ find_slash s i q ]
]

-- The loop to the left of the last slash: the place behind the last `@`, and the leftmost slash
-- behind it.
unfoldable pub find_at : Bytes → ℕ → Option ℕ → ℕ × Option ℕ
unfolding is_at
find_at s zero second = (0, second)
find_at s (suc j) second = elim (is_at s j b'@') [
  | true ↦ (suc j, second)
  | false ↦ elim (is_at s j b'/') [ true ↦ find_at s j (some j) | false ↦ find_at s j second ]
]

-- The loop of a text without a slash: the place behind the last `@`, and `posQuestion`.
unfoldable pub find_question : Bytes → ℕ → ℕ → ℕ × ℕ
unfolding is_at
find_question s zero q = (0, q)
find_question s (suc j) q = elim (is_at s j b'@') [
  | true ↦ (suc j, q)
  | false ↦ elim (is_at s j b'?') [ true ↦ find_question s j j | false ↦ find_question s j q ]
]

-- `parseUserPassword`, of what stands before the `@`.
unfoldable pub parse_user_password : Bytes → Bytes × Bytes
unfolding index_byte
parse_user_password s = elim (index_byte s b':') [
  | none ↦ (s, [])
  | some k ↦ (take k s, drop (suc k) s)
]

abbrev first_slash : Option ℕ → ℕ → ℕ
first_slash none i = i
first_slash (some j) i = j

module _ {Url Key : Type 0} where
  -- The user and the password, if there is an `@`.
  unfoldable pub set_user : Bytes → ℕ → Config Url Key → Config Url Key
  unfolding parse_user_password
  set_user s zero c = c
  set_user s (suc j) c =
      let credentials = parse_user_password (take j s) in
      record c { user = credentials.0; password = credentials.1 }

  -- The database and the schema, of the leftmost slash, the last slash and `posQuestion`.
  abbrev pub set_path : Bytes → Option ℕ → ℕ → ℕ → Config Url Key → Config Url Key
  set_path s none i q c = record c { database = slice (suc i) q s }
  set_path s (some j) i q c = record c { database = slice (suc j) i s; schema = slice (suc i) q s }

  -- The account of a host with a domain.
  unfoldable pub account_of_host : Config Url Key → Config Url Key
  unfolding index_byte host_includes_top_level_domain
  account_of_host c =
      if bytes_eq c.account [] && host_includes_top_level_domain c.host
      then elim (index_byte c.host b'.') [
        | none ↦ c
        | some zero ↦ c
        | some (suc i) ↦ record c { account = take (suc i) c.host }
      ]
      else c

  -- The account up to its first dot.
  unfoldable pub cut_account : Config Url Key → Config Url Key
  unfolding index_byte
  cut_account c = elim (index_byte c.account b'.') [
    | none ↦ c
    | some i ↦ record c { account = take i c.account }
  ]

module _ {Url Key : Type 0} (lib : Library Url Key) where
  -- `parseAccountHostPort`, of the text from the `@` to the slash.
  unfoldable pub parse_account_host_port : Bytes → Config Url Key → Outcome (Config Url Key)
  unfolding index_byte transform_account_to_host
  parse_account_host_port s c = elim (index_byte s b':') [
    | none ↦ ok (transform_account_to_host (record c { host = s }))
    | some k ↦
        or_else (failed_to_parse_port (drop (suc k) s)) (lib.parse_int (drop (suc k) s)) >>= λ n.
        ok (transform_account_to_host (record c { host = take k s; port = n }))
  ]

  -- `parseParams`, of the text from where it looks for the `?`.
  unfoldable pub parse_params : Bytes → Config Url Key → Outcome (Config Url Key)
  unfolding index_byte parse_dsn_params
  parse_params s c = elim (index_byte s b'?') [
    | none ↦ ok c
    | some j ↦ parse_dsn_params lib (drop (suc j) s) c
  ]

  -- The account and the host before a slash.
  unfoldable pub parse_authority : Bytes → ℕ → ℕ × Option ℕ → Outcome (Config Url Key)
  unfolding set_user parse_account_host_port
  parse_authority s zero found = ok new_config
  parse_authority s (suc i) found =
      parse_account_host_port (slice found.0 (first_slash found.1 (suc i)) s)
        (set_user s found.0 new_config)

  -- The case of a slash.
  unfoldable pub parse_with_slash : Bytes → ℕ → ℕ → Outcome (Config Url Key)
  unfolding find_at parse_authority parse_params
  parse_with_slash s i q =
      let found = find_at s i none in
      parse_authority s i found >>= λ c.
      parse_params (drop (suc i) s) c >>= λ c'. ok (set_path s found.1 i q c')

  -- The case without a slash.
  unfoldable pub parse_without_slash : Bytes → ℕ → Outcome (Config Url Key)
  unfolding find_question set_user parse_account_host_port parse_params
  parse_without_slash s q =
      let found = find_question s (length s) q in
      parse_account_host_port (slice found.0 found.1 s) (set_user s found.0 new_config) >>= λ c.
      parse_params (drop found.1 s) c

  abbrev pub unescape : Bytes → Outcome Bytes
  unescape s = or_else (malformed s) (lib.query_unescape s)

  -- The end of `ParseDSN`: the parameters that are unescaped.
  unfoldable pub unescape_parameters : Config Url Key → Outcome (Config Url Key)
  unescape_parameters c = do
    user ← unescape c.user
    password ← unescape c.password
    database ← unescape c.database
    schema ← unescape c.schema
    role ← unescape c.role
    warehouse ← unescape c.warehouse
    ok (record c {
      user = user;
      password = password;
      database = database;
      schema = schema;
      role = role;
      warehouse = warehouse;
    })

  -- What `ParseDSN` does with the parts that it has found.
  unfoldable pub complete : Config Url Key → Outcome (Config Url Key)
  unfolding account_of_host cut_account unescape_parameters fill_missing_config_parameters
  complete c =
      fill_missing_config_parameters (cut_account (account_of_host c)) >>= unescape_parameters

  -- What is done about a slash that is found or not.
  unfoldable pub parse_found : Bytes → Option ℕ × ℕ → Outcome (Config Url Key)
  unfolding parse_with_slash parse_without_slash
  parse_found s (some i, q) = parse_with_slash s i q
  parse_found s (none, q) = parse_without_slash s q

  -- The loops of `ParseDSN`.
  unfoldable pub parse_parts : Bytes → Outcome (Config Url Key)
  unfolding find_slash parse_found
  parse_parts s = parse_found s (find_slash s (length s) (length s))

  -- `ParseDSN`.
  unfoldable pub parse_dsn : Bytes → Outcome (Config Url Key)
  unfolding parse_parts complete
  parse_dsn s = parse_parts s >>= complete
