-- ===== src/Dict.antt =====
-- Python's `dict`: keys in insertion order, an assignment to a present key keeps its place.
mod Defs
pub mod Laws
pub mod Sums
pub mod Keys
pub mod Entries
unfoldable pub use Defs.{lookup, insert, erase, contains, modify, elem, erase_each, keys_where}
pub use Defs.{Dict, keys, values}
