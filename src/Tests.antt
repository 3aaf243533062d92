-- ===== src/Tests.antt =====
-- Runs at concrete inputs: a backend that counts, toy surroundings for the rest, and the theorems
-- applied to them.
pub mod Counting
pub mod Toys
pub mod ToyMachine
pub mod ToyFleet
pub mod ToyTools
pub mod ToyKernel
mod PoolTests
mod ProgressTests
mod BufferedTests
mod TargetTests
mod FleetTests
mod HostTests
mod FirecrackerTests
mod BuiltinTests
mod CommandTests
mod EndTests
mod VsockTests
mod ExampleTests
