-- ===== src/Json.antt =====
-- `encoding/json`, as far as the provider uses it: strings with their escapes, values, and the
-- strict decoding of a session context.
mod Strings
mod Quote
mod Marshal
mod Decode
unfoldable pub use Strings.*
unfoldable pub use Marshal.*
unfoldable pub use Decode.*
pub use Quote.*
