-- ===== src/Dsn/Located.antt =====
-- dsn.go: the parts of `user:password@account/database/schema`.
use gosnowflake.Base.{
  ℕ, none, some, false, ◌++◌, ◌∷◌, [], drop, suc, zero, length, ◌≡◌, ◌+◌, arith, ap, ◌∙◌,
  length-append, sym, append-nil, ◌<◌, refl,
}
use gosnowflake.Base.Text.{Bytes, contains_byte}
use gosnowflake.Dsn.Config.{Config, new_config, Library, ok}
use gosnowflake.Dsn.Host.{transform_account_to_host}
use gosnowflake.Dsn.Parse.{
  find_slash, find_at, set_user, set_path, parse_account_host_port, parse_params, parse_authority,
  parse_with_slash, parse_parts, parse_found,
}
use gosnowflake.Dsn.Scan.{
  drop_part, drop-append, slice_part, is_at-head, find_slash-part, find_at-part, index_byte-absent,
  parse_user_password-colon, drop_one, take-append,
}

-- The parts of a DSN with a user, an account, a database and a schema. The password may hold any
-- byte.
pub record Parts : Type 0 where
  pub user : Bytes
  pub password : Bytes
  pub account : Bytes
  pub database : Bytes
  pub schema : Bytes

-- None of the bytes that `ParseDSN` looks for.
abbrev pub IsPlain : Bytes → Type 0
IsPlain s =
    (contains_byte s b'/' ≡ false) × (contains_byte s b'?' ≡ false) × (contains_byte s b'@' ≡ false)

pub record IsPlainParts (p : Parts) : Type 0 where
  pub user_colon : contains_byte p.user b':' ≡ false
  pub account_plain : IsPlain p.account
  pub account_colon : contains_byte p.account b':' ≡ false
  pub database_plain : IsPlain p.database
  pub schema_plain : IsPlain p.schema

-- `user:password`.
abbrev pub credentials : Parts → Bytes
credentials p = p.user ++ b':' ∷ p.password

-- `user:password@account/database/schema`.
abbrev pub print_dsn : Parts → Bytes
print_dsn p = credentials p ++ b'@' ∷ (p.account ++ b'/' ∷ (p.database ++ b'/' ∷ p.schema))

-- The positions of the `@`, of the two slashes, and of what is behind the account and the database.
abbrev at : Parts → ℕ
at p = length (credentials p)

abbrev slash : Parts → ℕ
slash p = suc (at p) + length p.account

abbrev second_slash : Parts → ℕ
second_slash p = suc (slash p) + length p.database

module _ {Url Key : Type 0} (p : Parts) where
  abbrev pub named : Config Url Key
  named = record new_config { user = p.user; password = p.password }

  -- The configuration of the parts, before the defaults.
  abbrev pub located : Config Url Key
  located =
      record (transform_account_to_host {Url = Url} {Key = Key}
        (record named { host = p.account })) { database = p.database; schema = p.schema }

module _ (p : Parts) where
  abbrev text : Bytes
  text = print_dsn p

  -- What is behind each position.
  at-text : drop (at p) text ≡ b'@' ∷ (p.account ++ b'/' ∷ (p.database ++ b'/' ∷ p.schema))
  at-text = drop-append (credentials p) _

  account-text : drop (suc (at p)) text ≡ p.account ++ b'/' ∷ (p.database ++ b'/' ∷ p.schema)
  account-text = drop_one text (at p) _ _ at-text

  slash-text : drop (slash p) text ≡ b'/' ∷ (p.database ++ b'/' ∷ p.schema)
  slash-text = drop_part text (suc (at p)) p.account _ account-text

  database-text : drop (suc (slash p)) text ≡ p.database ++ b'/' ∷ p.schema
  database-text = drop_one text (slash p) _ _ slash-text

  second_slash-text : drop (second_slash p) text ≡ b'/' ∷ p.schema
  second_slash-text = drop_part text (suc (slash p)) p.database _ database-text

  schema-text : drop (suc (second_slash p)) text ≡ p.schema ++ []
  schema-text = drop_one text (second_slash p) _ _ second_slash-text ∙ sym (append-nil p.schema)

  text_length : length text ≡ suc (second_slash p) + length p.schema
  text_length = omega (
    arith,
    length-append (credentials p) (b'@' ∷ (p.account ++ b'/' ∷ (p.database ++ b'/' ∷ p.schema))),
    length-append p.account (b'/' ∷ (p.database ++ b'/' ∷ p.schema)),
    length-append p.database (b'/' ∷ p.schema),
  )

  module _ (plain : IsPlainParts p) where
    find_slash-text : (q : ℕ) → find_slash text (length text) q ≡ (some (second_slash p), q)
    unfolding find_slash
    find_slash-text q =
        ap (λ (i : ℕ). find_slash text i q) text_length
        ∙ find_slash-part text (suc (second_slash p)) p.schema [] q (length p.schema) schema-text
            plain.schema_plain.0 plain.schema_plain.1 (omega arith)
        ∙ (rw (is_at-head text (second_slash p) b'/' b'/' _ second_slash-text, find_slash) refl)

    find_at-text : find_at text (second_slash p) none ≡ (suc (at p), some (slash p))
    unfolding find_at
    find_at-text =
        find_at-part text (suc (slash p)) p.database _ none (length p.database) database-text
          plain.database_plain.0 plain.database_plain.2 (omega arith)
        ∙ (rw
            (
              is_at-head text (slash p) b'/' b'@' _ slash-text,
              is_at-head text (slash p) b'/' b'/' _ slash-text,
              find_at,
            )
            refl)
        ∙ find_at-part text (suc (at p)) p.account _ (some (slash p)) (length p.account)
            account-text plain.account_plain.0 plain.account_plain.2 (omega arith)
        ∙ (rw (is_at-head text (at p) b'@' b'@' _ at-text, find_at) refl)

    module _ {Url Key : Type 0} (lib : Library Url Key) where
      set_user-text :
          (c : Config Url Key)
          → set_user text (suc (at p)) c ≡ record c { user = p.user; password = p.password }
      unfolding set_user
      set_user-text c =
          rw
            (
              take-append (credentials p)
                  (b'@' ∷ (p.account ++ b'/' ∷ (p.database ++ b'/' ∷ p.schema))),
              parse_user_password-colon p.user p.password plain.user_colon,
            )
            refl

      parse_account_host_port-plain :
          (s : Bytes) (c : Config Url Key)
          → contains_byte s b':' ≡ false
          → parse_account_host_port lib s c ≡ ok (transform_account_to_host (record c { host = s }))
      unfolding parse_account_host_port
      parse_account_host_port-plain s c a =
          rw (index_byte-absent s b':' a, parse_account_host_port) refl

      parse_authority-text :
          (n : ℕ)
          → 0 < n
          → parse_authority lib text n (suc (at p), some (slash p))
            ≡ ok (transform_account_to_host (record (named p) { host = p.account }))
      unfolding parse_authority
      parse_authority-text zero l = absurd (omega arith)
      parse_authority-text (suc n) l =
          rw (slice_part text (suc (at p)) p.account _ account-text, set_user-text new_config)
            (parse_account_host_port-plain p.account (named p) plain.account_colon)

      parse_params-text :
          (c : Config Url Key) → parse_params lib (drop (suc (second_slash p)) text) c ≡ ok c
      unfolding parse_params
      parse_params-text c =
          rw (schema-text, append-nil p.schema)
            (rw (index_byte-absent p.schema b'?' plain.schema_plain.1, parse_params) refl)

      set_path-text :
          (c : Config Url Key)
          → set_path text (some (slash p)) (second_slash p) (length text) c
            ≡ record c { database = p.database; schema = p.schema }
      set_path-text c =
          rw
            (
              text_length,
              slice_part text (suc (slash p)) p.database _ database-text,
              slice_part text (suc (second_slash p)) p.schema [] schema-text,
            )
            refl

      parse_with_slash-text :
          parse_with_slash lib text (second_slash p) (length text) ≡ ok (located p)
      unfolding parse_with_slash
      parse_with_slash-text =
          rw
            (
              find_at-text,
              parse_authority-text (second_slash p) (omega arith),
              parse_params-text _,
              set_path-text _,
            )
            refl

      pub parse_parts-text : parse_parts lib text ≡ ok (located p)
      unfolding parse_parts parse_found
      parse_parts-text =
          ap (parse_found lib text) (find_slash-text (length text)) ∙ parse_with_slash-text
