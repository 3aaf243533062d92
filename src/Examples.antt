-- ===== src/Examples.antt =====
-- The programs under examples/, and sandbox/sandboxtest/fake.go.
pub mod Audit
pub mod Session
pub mod Greet
pub mod HostPrograms
pub mod Programs
pub mod Fake
pub mod Firecracker
pub mod GuestAgent
