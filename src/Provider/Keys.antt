-- ===== src/Provider/Keys.antt =====
-- provider/keys.go, `loadKey`: the key that signs the client's assertions. PEM, the PKCS formats, RSA,
-- the curve and the parser of JSON are parameters; the decoding of the numbers is the model's own.
mod Numbers
mod Defs
mod Jwk
mod Signing
mod Members
mod Written
pub mod Samples
mod Tests
unfoldable pub use Numbers.*
unfoldable pub use Defs.*
pub use Signing.*
