-- ===== src/Names.antt =====
-- hwc_names.hpp: the names of the hardware counters, the products that have them, and the search for a
-- counter by its name (`MaliCounter::find_counter_index_by_name` of mali_counter.cpp).
pub mod T60x
pub mod T62x
pub mod T72x
pub mod T76x
pub mod T82x
pub mod T83x
pub mod T86x
pub mod T88x
pub mod Thex
pub mod Tmix
pub mod Tsix
pub mod Tnox
pub mod Block
pub mod Products
pub mod Lookup
