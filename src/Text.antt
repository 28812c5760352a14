-- ===== src/Text.antt =====
-- Go strings and byte slices: sequences of bytes, with the functions of `strings`, `bytes` and
-- `unicode/utf8` that the source calls.
mod Defs
mod Utf8
mod Space
mod Words
mod Pieces
mod Cleaned
unfoldable pub use Defs.*
unfoldable pub use Utf8.*
unfoldable pub use Space.{is_space, trim_space, blank}
pub use Space.{blank_iff, blank-nil, blank-visible}
unfoldable pub use Words.{split_on, join}
pub use Words.{Lacks, split_on-join, split_on-Lacks}
unfoldable pub use Pieces.*
pub use Cleaned.*
