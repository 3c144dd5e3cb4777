-- ===== src/Runtime.antt =====
-- The Python runtime as far as src/ObscuraProto/__init__.py uses it: values, exceptions, the state
-- that the module's functions read and change, and the statements that raise and catch.
mod Data
mod Calls
mod State
mod Monad
mod Keeping
pub use Data.*
pub use Calls.*
pub use State.*
pub use Monad.*
pub use Keeping.*
