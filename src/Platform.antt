-- ===== src/Platform.antt =====
-- What the program runs on: the database server with its driver and the rest of its environment,
-- as parameters, and the state and error monad of a method.
pub mod Server
pub mod Environment
pub mod AuditTrail
pub mod Monad
pub mod Frame
pub mod Returns
pub use Server.*
pub use Environment.*
pub use AuditTrail.*
unfoldable pub use Monad.*
