-- ===== src/Dsn/Host.antt =====
-- dsn.go: hosts, accounts, regions and domains.
use gosnowflake.Base.{
  ℕ, Option, none, some, Bool, ◌++◌, ◌∷◌, [], take, drop, suc, zero, if◌then◌else◌, ◌&&◌, not,
}
use gosnowflake.Base.Text.{
  Bytes, codes, to_lower, last_index, has_prefix, index_byte, contains, bytes_eq,
}
use gosnowflake.Base.Int.{pos, eqb_ℤ}
use gosnowflake.Dsn.Config.{Config}

abbrev pub default_domain : Bytes
default_domain = codes ".snowflakecomputing.com"

abbrev pub cn_domain : Bytes
cn_domain = codes ".snowflakecomputing.cn"

abbrev pub top_level_domain_prefix : Bytes
top_level_domain_prefix = codes ".snowflakecomputing."

-- `extractDomainFromHost`, with the index where it is at least 1.
unfoldable pub extract_domain_from_host : Bytes → Option (Bytes × ℕ)
unfolding last_index to_lower
extract_domain_from_host host = elim (last_index (to_lower host) top_level_domain_prefix) [
  | none ↦ none
  | some zero ↦ none
  | some (suc i) ↦ some (drop (suc i) host, suc i)
]

-- The domain that `extractDomainFromHost` returns, empty where it finds none.
unfoldable pub domain_of_host : Bytes → Bytes
unfolding extract_domain_from_host
domain_of_host host = elim (extract_domain_from_host host) [ none ↦ [] | some p ↦ p.0 ]

-- `getDomainBasedOnRegion`.
unfoldable pub get_domain_based_on_region : Bytes → Bytes
get_domain_based_on_region region =
    if has_prefix (to_lower region) (codes "cn-") then cn_domain else default_domain

-- `extractRegionFromAccount`, with the position of a dot behind the first byte.
unfoldable pub extract_region_from_account : Bytes → Option (Bytes × ℕ)
extract_region_from_account account = elim (index_byte (to_lower account) b'.') [
  | none ↦ none
  | some zero ↦ none
  | some (suc i) ↦ some (drop (suc (suc i)) account, suc i)
]

-- `hostIncludesTopLevelDomain`.
unfoldable pub host_includes_top_level_domain : Bytes → Bool
host_includes_top_level_domain host = contains (to_lower host) top_level_domain_prefix

-- `buildHostFromAccountAndRegion`.
unfoldable pub build_host_from_account_and_region : Bytes → Bytes → Bytes
unfolding get_domain_based_on_region
build_host_from_account_and_region account region =
    account ++ (b'.' ∷ (region ++ get_domain_based_on_region region))

-- Whether a region is the default one.
abbrev pub is_us_west : Bytes → Bool
is_us_west region = bytes_eq (to_lower region) (codes "us-west-2")

module _ {Url Key : Type 0} where
  -- The account and the host of an account name without the default region.
  unfoldable pub use_region : Config Url Key → Option (Bytes × ℕ) → Config Url Key
  use_region c none = record c { host = c.account ++ default_domain; port = pos 443 }
  use_region c (some (region, dot)) =
      let named = record c { account = take dot c.account } in
      if is_us_west region
      then record named { host = named.account ++ default_domain; port = pos 443 }
      else if bytes_eq region []
      then record c { host = c.account ++ default_domain; port = pos 443 }
      else record named {
        region = region;
        host = build_host_from_account_and_region named.account region;
        port = pos 443;
      }

  -- `transformAccountToHost`.
  unfoldable pub transform_account_to_host : Config Url Key → Config Url Key
  unfolding use_region extract_region_from_account
  transform_account_to_host c =
      if eqb_ℤ c.port (pos 0)
        && not (bytes_eq c.host [])
        && not (host_includes_top_level_domain c.host)
      then use_region (record c { account = c.host }) (extract_region_from_account c.host)
      else c
