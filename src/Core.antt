-- ===== src/Core.antt =====
-- app/core: the exceptions of the program, the effects of its services, and its cryptography.
pub mod Errors
pub mod Exec
pub mod Time
pub mod Messages
pub mod Signer
pub mod Cipher
pub mod Redis
pub mod Logging
