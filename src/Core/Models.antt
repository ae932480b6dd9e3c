-- ===== src/Core/Models.antt =====
-- models.py: the enumerations and the protocol messages, and `EdgeCommand` of command_gate.py; the parts of
-- a policy of policy.py.
mod Enums
mod Messages
mod Command
mod Checks
mod Policies
pub use Enums.*
pub use Messages.*
unfoldable pub use Command.*
unfoldable pub use Checks.*
unfoldable pub use Policies.*
