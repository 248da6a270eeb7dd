-- ===== src/Dsn/RoundTrip.antt =====
-- dsn.go: `ParseDSN` of `user:password@account/database/schema`.
use gosnowflake.Base.{ℕ, none, some, false, ◌++◌, ◌∷◌, [], ◌≡◌, arith, ap, refl, ◌∙◌}
use gosnowflake.Base.Text.{
  Bytes, codes, only_spaces, is_blank, to_lower, contains, contains_byte, has_prefix, bytes_eq,
}
use gosnowflake.Base.Int.{pos}
use gosnowflake.Dsn.Config.{Config, Library, Outcome, ok, ◌>>=◌}
use gosnowflake.Dsn.Host.{
  default_domain, transform_account_to_host, host_includes_top_level_domain,
  extract_region_from_account,
}
use gosnowflake.Dsn.Fill.{
  fill_missing_config_parameters, strip_global, global_account, check_credentials, check_host,
  fill_flags, fill_timeouts, fill_host, add_region, fill_protocol,
}
use gosnowflake.Dsn.Defaults.{filled}
use gosnowflake.Dsn.Filled.{check_host-ok, filled-HasDefaults}
use gosnowflake.Dsn.Parse.{account_of_host, cut_account, unescape_parameters, complete, parse_dsn}
use gosnowflake.Dsn.Scan.{index_byte-absent}
use gosnowflake.Dsn.Located.{Parts, IsPlainParts, print_dsn, named, parse_parts-text}

-- A text without dots stays one in lower case, and holds nothing that begins with a dot.
to_lower-dot : (s : Bytes) → contains_byte s b'.' ≡ false → contains_byte (to_lower s) b'.' ≡ false
unfolding contains_byte to_lower
to_lower-dot [] h = refl
to_lower-dot (x ∷ s) h = ground (arith, to_lower-dot s)

to_lower-append : (s t : Bytes) → to_lower (s ++ t) ≡ to_lower s ++ to_lower t
unfolding to_lower
to_lower-append [] t = refl
to_lower-append (x ∷ s) t = rw (to_lower-append s t) refl

contains-append :
    (s t p : Bytes)
    → contains_byte s b'.' ≡ false
    → contains (s ++ t) (b'.' ∷ p) ≡ contains t (b'.' ∷ p)
unfolding contains contains_byte has_prefix
contains-append [] t p h = refl
contains-append (x ∷ s) t p h = ground (arith, contains-append s t p)

contains-absent : (s p : Bytes) → contains_byte s b'.' ≡ false → contains s (b'.' ∷ p) ≡ false
unfolding contains contains_byte has_prefix
contains-absent [] p h = refl
contains-absent (x ∷ s) p h = ground (arith, contains-absent s p)

-- The account and the credentials are given, and the account has no dot.
pub record IsUsual (p : Parts) : Type 0 where
  pub plain : IsPlainParts p
  pub account_dot : contains_byte p.account b'.' ≡ false
  pub account_given : only_spaces p.account ≡ false
  pub user_given : is_blank p.user ≡ false
  pub password_given : is_blank p.password ≡ false

-- The library unescapes the parts `p` to the parts `q`.
pub record Unescapes {Url Key : Type 0} (lib : Library Url Key) (p q : Parts) : Type 0 where
  pub user_of : lib.query_unescape p.user ≡ some q.user
  pub password_of : lib.query_unescape p.password ≡ some q.password
  pub database_of : lib.query_unescape p.database ≡ some q.database
  pub schema_of : lib.query_unescape p.schema ≡ some q.schema
  pub empty_of : lib.query_unescape [] ≡ some []

not_empty : (s : Bytes) → only_spaces s ≡ false → bytes_eq s [] ≡ false
unfolding only_spaces bytes_eq
not_empty [] h = cc
not_empty (x ∷ s) h = refl

bytes_eq-append : (s : Bytes) (c : ℕ) (t : Bytes) → bytes_eq (s ++ c ∷ t) [] ≡ false
unfolding bytes_eq
bytes_eq-append [] c t = refl
bytes_eq-append (x ∷ s) c t = refl

extract_region_from_account-absent :
    (s : Bytes) → contains_byte s b'.' ≡ false → extract_region_from_account s ≡ none
unfolding extract_region_from_account
extract_region_from_account-absent s h =
    rw (index_byte-absent (to_lower s) b'.' (to_lower-dot s h), extract_region_from_account) refl

module _ {Url Key : Type 0} where
  -- The configuration of an account, before the path.
  abbrev at_default_domain : Parts → Config Url Key
  at_default_domain p = record (named {Url = Url} {Key = Key} p) {
    account = p.account;
    host = p.account ++ default_domain;
    port = pos 443;
  }

  transform_account_to_host-usual :
      (p : Parts)
      → IsUsual p
      → transform_account_to_host (record (named p) { host = p.account }) ≡ at_default_domain p
  unfolding transform_account_to_host host_includes_top_level_domain
  transform_account_to_host-usual p u =
      rw
        (
          not_empty p.account u.account_given,
          contains-absent (to_lower p.account) (codes "snowflakecomputing.")
              (to_lower-dot p.account u.account_dot),
          extract_region_from_account-absent p.account u.account_dot,
        )
        refl

  -- An account is cut at a dash of a global host only.
  global_account-lem :
      (c : Config Url Key)
      → contains (to_lower c.host) (codes ".global.") ≡ false
      → global_account c ≡ c.account
  unfolding global_account
  global_account-lem c h = ground arith

  -- The configuration of the parts.
  abbrev usual : Parts → Config Url Key
  usual p = record (at_default_domain p) { database = p.database; schema = p.schema }

  account_of_host-usual : (p : Parts) → IsUsual p → account_of_host (usual p) ≡ usual p
  unfolding account_of_host
  account_of_host-usual p u = rw (not_empty p.account u.account_given, account_of_host) refl

  cut_account-usual : (p : Parts) → IsUsual p → cut_account (usual p) ≡ usual p
  unfolding cut_account
  cut_account-usual p u = rw (index_byte-absent p.account b'.' u.account_dot, cut_account) refl

  strip_global-usual : (p : Parts) → IsUsual p → strip_global (usual p) ≡ usual p
  unfolding strip_global
  strip_global-usual p u =
      let host_lower = to_lower-append p.account default_domain in
      let no_global =
        contains-append (to_lower p.account) default_domain (codes "global.")
          (to_lower-dot p.account u.account_dot) in
      rw
        (global_account-lem (usual p)
          (ap (λ (h : Bytes). contains h (codes ".global.")) host_lower ∙ no_global))
        refl

  check_credentials-usual : (p : Parts) → IsUsual p → check_credentials (usual p) ≡ ok (usual p)
  unfolding check_credentials
  check_credentials-usual p u =
      rw (u.account_given, u.user_given, u.password_given, check_credentials) refl

  fill_missing_config_parameters-usual :
      (p : Parts) → IsUsual p → fill_missing_config_parameters (usual p) ≡ ok (filled (usual p))
  unfolding fill_missing_config_parameters
  fill_missing_config_parameters-usual p u =
      let finish : Config Url Key → Outcome (Config Url Key) = λ c. check_host (filled c) in
      ap (λ (c : Config Url Key). check_credentials c >>= finish) (strip_global-usual p u)
      ∙ ap (λ (r : Outcome (Config Url Key)). r >>= finish) (check_credentials-usual p u)
      ∙ check_host-ok (filled (usual p)) (filled-HasDefaults (usual p)).host_set

  -- The result, with the parts unescaped.
  abbrev unescaped : Parts → Parts → Config Url Key
  unescaped p q = record (filled (usual p)) {
    user = q.user;
    password = q.password;
    database = q.database;
    schema = q.schema;
  }

  unescape_parameters-usual :
      (lib : Library Url Key) (p q : Parts)
      → Unescapes lib p q
      → unescape_parameters lib (filled (usual p)) ≡ ok (unescaped p q)
  unfolding unescape_parameters gosnowflake.Dsn.Fill.fill_flags gosnowflake.Dsn.Fill.fill_timeouts
      gosnowflake.Dsn.Fill.fill_host gosnowflake.Dsn.Fill.add_region bytes_eq
      gosnowflake.Dsn.Fill.fill_protocol
  unescape_parameters-usual lib p q h =
      rw (h.user_of, h.password_of, h.database_of, h.schema_of, h.empty_of, unescape_parameters)
        refl

  complete-usual :
      (lib : Library Url Key) (p q : Parts)
      → IsUsual p
      → Unescapes lib p q
      → complete lib (usual p) ≡ ok (unescaped p q)
  unfolding complete
  complete-usual lib p q u h =
      let rest : Config Url Key → Outcome (Config Url Key) =
        λ c. fill_missing_config_parameters c >>= unescape_parameters lib in
      ap (λ (c : Config Url Key). rest (cut_account c)) (account_of_host-usual p u)
      ∙ ap rest (cut_account-usual p u)
      ∙ ap (λ (r : Outcome (Config Url Key)). r >>= unescape_parameters lib)
          (fill_missing_config_parameters-usual p u)
      ∙ unescape_parameters-usual lib p q h

  -- A user, a password, an account, a database and a schema that are written as
  -- `user:password@account/database/schema` are parsed back, unescaped, if user, password and account
  -- are not blank, the user has no colon, the account no dot and no colon, and account, database and
  -- schema no slash, question mark or `@`; the password may hold any bytes. The host is the account
  -- at the default domain, with `https` at port 443.
  pub parse_dsn-print_dsn :
      (lib : Library Url Key) (p q : Parts)
      → IsUsual p
      → Unescapes lib p q
      → (c : Config Url Key) × (parse_dsn lib (print_dsn p) ≡ ok c)
        × (c.user ≡ q.user)
        × (c.password ≡ q.password)
        × (c.database ≡ q.database)
        × (c.schema ≡ q.schema)
        × (c.account ≡ p.account)
        × (c.host ≡ p.account ++ default_domain)
        × (c.port ≡ pos 443)
        × (c.protocol ≡ codes "https")
  unfolding parse_dsn fill_flags fill_timeouts fill_host add_region fill_protocol
  parse_dsn-print_dsn lib p q u h =
      let parts =
        parse_parts-text p u.plain lib
        ∙ ap (λ (c : Config Url Key). ok (record c { database = p.database; schema = p.schema }))
            (transform_account_to_host-usual p u) in
      (
        unescaped p q,
        ap (λ (r : Outcome (Config Url Key)). r >>= complete lib) parts
            ∙ complete-usual lib p q u h,
        refl,
        refl,
        refl,
        refl,
        refl,
        rw (bytes_eq-append p.account b'.' (codes "snowflakecomputing.com")) refl,
        refl,
        refl,
      )
