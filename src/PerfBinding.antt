-- ===== src/PerfBinding.antt =====
-- The two bit-field structures of inner_unikernel_rt/src/perf_event/binding.rs with their accessors.
-- An accessor is one clause of `load` (`mispred()`) or of `store` (`set_mispred(val)`).
pub mod BranchEntry
pub mod MemDataSrc
