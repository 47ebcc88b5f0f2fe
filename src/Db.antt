-- ===== src/Db.antt =====
-- The database as the code sees it: the tables of the migrations, statements that may fail, and the
-- error monad in which the functions run.
mod Rows
mod Monad
mod Table
pub mod Exec
pub mod Lists
pub mod Triple
pub mod Total
pub use Rows.*
unfoldable pub use Monad.*
pub use Table.*
