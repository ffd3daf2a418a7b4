-- ===== src/Mali.antt =====
-- mali_counter.cpp and mali_counter.h: the instrument for the counters of a Mali GPU.
pub mod Cores
pub mod GpuProps
pub mod Layout
pub mod Requests
pub mod Kernel
pub mod State
pub mod HwInfo
pub mod Init
pub mod Sampling
pub mod Counter
