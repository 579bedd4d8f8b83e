-- ===== src/Examples.antt =====
-- The simulations under examples/: command lines (support/support.go), handlers
-- (image-processing/image.go, c2pa-signing/signing.go), and the programs under cmd/.
pub mod Flags
pub mod Support
pub mod Timers
pub mod Image
pub mod Signing
pub mod Producers
pub mod Sent
pub mod Stored
pub mod Handled
pub mod Workers
