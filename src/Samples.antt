-- ===== src/Samples.antt =====
-- The sample programs of rust-inner-unikernels/samples, as clients of the helpers. A program runs on
-- the kernel's state; a child module is about one sample.
pub mod Setting
pub mod MapTest
pub mod Tracex
pub mod Hello
