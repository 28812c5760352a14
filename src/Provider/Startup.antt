-- ===== src/Provider/Startup.antt =====
-- provider/provider.go, `New`, with `Option` of provider/types.go: how a provider is put together
-- from its configuration and its files, and what its verifier then vouches for.
mod Defs
mod Ready
mod Complete
mod Vouched
mod Signed
mod Notified
mod Completed
pub mod Samples
mod Tests
unfoldable pub use Defs.*
unfoldable pub use Ready.*
unfoldable pub use Vouched.*
