-- ===== src/Dsn/Tests.antt =====
-- dsn.go: runs of the parser, with a library that knows no escapes and one port.
use gosnowflake.Dsn.Insecure.{drop_insecure_mode-neighbour}
use gosnowflake.Dsn.Params.{find_by_prefix, drop_insecure_mode}
use gosnowflake.Dsn.Located.{Parts}
use gosnowflake.Dsn.RoundTrip.{IsUsual, parse_dsn-print_dsn}
use gosnowflake.Dsn.Defaults.{Defaults}
use gosnowflake.Base.{◌≡◌, refl, some, none, ◌∷◌, [], true, if◌then◌else◌}
use gosnowflake.Base.Text.{Bytes, codes, bytes_eq, contains_byte, only_spaces, is_blank, has_prefix}
use gosnowflake.Base.Int.{pos}
use gosnowflake.Dsn.Config.{Config, Library, ok, err, panics, Outcome, empty_account}
use gosnowflake.Dsn.Parse.{parse_dsn}

abbrev plain : Library Bytes Bytes
plain = record {
  query_unescape = λ s. some s;
  parse_int = λ s. if bytes_eq s (codes "8080") then some (pos 8080) else none;
  parse_url = λ s. none;
  scheme = λ s. s;
  decode_base64 = λ s. none;
  parse_private_key = λ s. none;
}

-- Some of the fields of what is parsed.
abbrev view :
    Outcome (Config Bytes Bytes) → Outcome (Bytes × (Bytes × (Bytes × (Bytes × (Bytes × Bytes)))))
view (ok c) = ok (c.user, (c.password, (c.account, (c.host, (c.database, c.schema)))))
view (err e) = err e
view panics = panics

full_text :
    view (parse_dsn plain (codes "u:p@acc.eu-1/db/s?role=r"))
    ≡ ok (
      codes "u",
      (
        codes "p",
        (codes "acc", (codes "acc.eu-1.snowflakecomputing.com", (codes "db", codes "s"))),
      ),
    )
unfolding parse_dsn gosnowflake.Base.Text.split
    gosnowflake.Dsn.Host.build_host_from_account_and_region
full_text = refl

-- `insecureMode` as the first parameter beside `disableOCSPChecks` makes the driver slice below 0.
insecure_mode_first :
    view (parse_dsn plain (codes "u:p@acc?insecureMode=true&disableOCSPChecks=true")) ≡ panics
unfolding parse_dsn gosnowflake.Base.Text.split
insecure_mode_first = refl

-- Behind another parameter it takes that parameter along.
insecure_mode_second :
    view (parse_dsn plain (codes "u:p@h:8080?account=a&insecureMode=true&disableOCSPChecks=true"))
    ≡ err empty_account
unfolding parse_dsn gosnowflake.Base.Text.split
insecure_mode_second = refl

abbrev parts : Parts
parts = record {
  user = codes "u";
  password = codes "p@/";
  account = codes "acc";
  database = codes "db";
  schema = codes "s";
}

parts-IsUsual : IsUsual parts
unfolding contains_byte only_spaces is_blank
parts-IsUsual = record {
  plain = record {
    user_colon = refl;
    account_plain = (refl, refl, refl);
    account_colon = refl;
    database_plain = (refl, refl, refl);
    schema_plain = (refl, refl, refl);
  };
  account_dot = refl;
  account_given = refl;
  user_given = refl;
  password_given = refl;
}

parse_dsn-print_dsn_example :
    (c : Config Bytes Bytes) × (parse_dsn plain (codes "u:p@/@acc/db/s") ≡ ok c)
    × (c.user ≡ codes "u")
    × (c.password ≡ codes "p@/")
    × (c.database ≡ codes "db")
    × (c.schema ≡ codes "s")
    × (c.account ≡ codes "acc")
    × (c.host ≡ codes "acc.snowflakecomputing.com")
    × (c.port ≡ pos 443)
    × (c.protocol ≡ codes "https")
parse_dsn-print_dsn_example = parse_dsn-print_dsn plain parts parts parts-IsUsual (record {
  user_of = refl;
  password_of = refl;
  database_of = refl;
  schema_of = refl;
  empty_of = refl;
})

drop_insecure_mode-neighbour_example :
    drop_insecure_mode
      (codes "a=1" ∷ codes "insecureMode=true" ∷ codes "disableOCSPChecks=true" ∷ [])
    ≡ ok (codes "disableOCSPChecks=true" ∷ [])
unfolding has_prefix find_by_prefix
drop_insecure_mode-neighbour_example =
    drop_insecure_mode-neighbour [] (codes "a=1") (codes "insecureMode=true")
      (codes "disableOCSPChecks=true" ∷ []) 2 tt refl refl refl
