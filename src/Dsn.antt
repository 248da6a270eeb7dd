-- ===== src/Dsn.antt =====
-- dsn.go: from the text of a DSN to a configuration.
-- Config has the configuration, the errors and what the Go library does; Host the helpers on hosts
-- and accounts; Params the query string; Fill the defaults and their checks; Parse the scan of the
-- text.
pub mod Config
pub mod Host
pub mod Params
pub mod Fill
pub mod Parse
pub mod Scan
pub mod Located
pub mod Defaults
pub mod Filled
pub mod Insecure
pub mod RoundTrip
mod Tests
