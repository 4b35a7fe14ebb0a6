-- ===== src/Common/Keys.antt =====
-- The keys of the database's stores, as an interface: a total order by a three-way comparison.
-- Strings are compared by code units, and pairs by their first component first.
pub mod Instances
unfoldable pub use Instances.*
pub mod Order
unfoldable pub use Order.*
