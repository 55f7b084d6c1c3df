-- ===== src/Codec.antt =====
-- What it means that a parser accepts exactly one byte format, and how such parsers follow one
-- another.
mod Format
mod Primitives
mod Fixed
mod Relation
mod Arrays
mod Counted
mod Locked
pub use Format.*
pub use Primitives.*
unfoldable pub use Fixed.*
pub use Relation.*
unfoldable pub use Arrays.*
pub use Counted.*
unfoldable pub use Locked.*
