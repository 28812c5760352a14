-- ===== src/Token.antt =====
-- The access token cache of provider/http.go: the locked sections of `accessToken` and `invalidate`.
mod Defs
mod Sections
mod Steps
mod Flights
mod Tests
unfoldable pub use Defs.*
pub use Sections.*
