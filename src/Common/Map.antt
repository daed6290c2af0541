-- ===== src/Common/Map.antt =====
-- Go's `map[string]V` as an association list. `range` visits the entries in the list's order;
-- a statement about a result of `range` says what holds for every order.
mod Defs
mod Laws
mod Totals
unfoldable pub use Defs.{Map, lookup, insert, erase, has, entries_where, total, UniqueKeys, values}
pub use Laws.*
pub use Totals.*
