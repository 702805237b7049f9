-- ===== src/Tests.antt =====
-- The theorems at concrete inputs, with the crate compiled under three profiles.
pub mod Fields
pub mod Panics
pub mod Values
pub mod Kernel
pub mod Contexts
pub mod Clock
pub mod Samples
pub mod Locks
pub mod Parsing
pub mod PerfEvents
pub mod Scheduling
use linux_kernel_development.Prelude.{true, false}
use linux_kernel_development.Build.{Build}

abbrev pub release : Build
release = record { big_endian = false; debug_assertions = false; overflow_checks = false }

abbrev pub debug : Build
debug = record { big_endian = false; debug_assertions = true; overflow_checks = true }

abbrev pub debug_big_endian : Build
debug_big_endian = record { big_endian = true; debug_assertions = true; overflow_checks = true }
