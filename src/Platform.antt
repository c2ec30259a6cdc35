-- ===== src/Platform.antt =====
-- What the program uses and does not implement: the Kubernetes API server behind controller-runtime's
-- client, the agent card type of the a2a library, and the functions of Go's standard library
-- that the models below take as parameters. The state that the handlers and reconcilers act on.
mod Card
mod Stdlib
mod Client
mod State
mod Lawful
pub mod Memory
pub use Card.*
pub use Stdlib.*
pub use Client.*
unfoldable pub use State.*
pub use Lawful.*
pub use Memory.*
