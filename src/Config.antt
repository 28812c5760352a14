-- ===== src/Config.antt =====
-- provider/config.go: the configuration, its defaults and its validation, and the two address
-- checks of provider/mailpit.go that validation calls. `url.Parse`, `net.SplitHostPort`,
-- `net.ParseIP` and the YAML decoder are parameters.
mod Defs
mod Checks
mod Validate
mod Scopes
mod Fields
mod Addresses
mod Accepted
mod Load
pub mod Samples
mod Tests
unfoldable pub use Defs.*
unfoldable pub use Checks.*
unfoldable pub use Validate.*
pub use Accepted.*
pub use Fields.*
pub use Addresses.{IsMailByte, valid_mail_address_sound}
pub use Scopes.*
unfoldable pub use Load.*
