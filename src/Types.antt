-- ===== src/Types.antt =====
-- The named constants of types.go. A `uint8` or `uint16` type whose values come from the wire is a
-- number, and its constants stand in the module named for the type.
pub mod Primitive
pub mod AttributeType
pub mod RequestStatus
pub mod ErrorCode
pub mod Priority
pub mod Protocol
