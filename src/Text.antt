-- ===== src/Text.antt =====
-- The parts of Go's `strings` and `bytes` that the program calls, on byte lists: `Split` and `Join`
-- with a one-byte separator, `ReadString` up to a delimiter, `Replace` of one byte by nothing.
mod Parts
pub mod Number
pub use Parts.{All-remove, remove-eq, until-append, join-terminated}
unfoldable pub use Parts.{split, join, until, remove, terminated}
pub use Parts.{split-terminated, split-join}
