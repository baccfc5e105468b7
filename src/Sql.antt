-- ===== src/Sql.antt =====
-- What the statements of internal/store do to one table, a list of rows in rowid order: the first
-- row a query scans, the rows an UPDATE or a DELETE touches, COUNT, and ORDER BY.
mod Defs
pub mod Laws
pub mod Counts
pub mod Members
unfoldable pub use Defs.{select, update, delete, where_rows, count, place, order_by}
