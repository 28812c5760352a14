-- ===== src/Mailpit.antt =====
-- provider/mailpit.go: the synthetic verifier that mails a one-time code. The locked sections are
-- functions on the verifier's state, and the calls are composed of them. SHA-256 is a parameter.
mod Defs
mod Verify
mod Guesses
mod Send
mod Interleaving
mod Purged
mod History
mod Refined
mod Deliver
mod Delivered
mod Mailed
mod Message
mod Tests
mod HistoryTests
unfoldable pub use Defs.*
pub use Verify.*
pub use Send.*
unfoldable pub use Deliver.*
unfoldable pub use Mailed.*
