-- ===== src/Provider.antt =====
-- provider/provider.go, provider/http.go and provider/keys.go: the provider's operations.
mod Base64
mod Psut
mod Session
mod Attributed
mod Answered
mod Strays
mod Oversized
mod Context
mod Restore
mod Runtime
mod Http
mod Loop
mod Looped
mod Lookup
mod Identity
mod Granted
mod Attributes
mod Released
mod Rules
mod Spending
mod Spent
mod Failures
mod Issued
mod Queried
mod Claims
mod ClaimOrder
mod Assertion
pub mod Keys
pub mod Startup
pub mod Samples
mod LimitTests
mod SessionTests
mod Tests
unfoldable pub use Psut.*
unfoldable pub use Context.*
pub use Restore.*
unfoldable pub use Runtime.*
unfoldable pub use Http.*
unfoldable pub use Lookup.*
unfoldable pub use Identity.*
pub use Granted.*
pub use Attributes.*
pub use Released.*
pub use Failures.*
pub use Issued.*
pub use Queried.*
pub use Claims.*
