-- ===== src/Lib.antt =====
-- HWCPipe reads the hardware counters of a Mali GPU and of the CPU. This library models the parts that
-- talk to the GPU and to the kernel's perf events, the measurements that they hand out, and the statistics
-- over such measurements.
--
-- The parts, and how they interact. `MaliCounter` (mali_counter.h, mali_counter.cpp) is an instrument. Its
-- constructor fills a map from names to measurements with zeroes and calls `init`, which asks the kernel
-- what the GPU is (`get_mali_hw_info`), opens the device and the reader of its counters, maps the samples'
-- memory, chooses the table of names (hwc_names.hpp) for the product, and builds the table of the shader
-- cores. `start` and `stop` have the kernel take a sample and copy it into the counter buffer
-- (`sample_counters`, `wait_next_event`); `stop` then finds each counter by its name
-- (`find_counter_index_by_name`), adds the blocks of all L2 slices, and stores a measurement
-- (measurement.h) under the name. `measurements` hands the map out under other names. `PMUCounter`
-- (pmu_counter.h, pmu_counter.cpp) is the other instrument: it holds six objects of `PMU` (pmu.h, pmu.cpp),
-- each a descriptor of a counter, which `start` resets and `stop` reads and resets. Both fill the interface
-- `Instrument` (instrument.h). `InstrumentsStats` (instruments_stats.h, instruments_stats.cpp) sorts a vector
-- of measurements, and gives its least, greatest and median one, the mean and the deviation.
--
-- The files:
--   Common: shared names and lemmas; Common.Perms is about rearranged lists; Common.Outcome is the code's style, a state passed on with a return,
--     a throw, or a fault where C++ leaves the behaviour undefined; Common.Text has `strstr`.
--   Names: the twelve tables (Names.T60x to Names.Tnox), `MaliCounterBlockName` (Names.Block), `products` and
--     the search through it (Names.Products), and `find_counter_index_by_name` (Names.Lookup).
--   Measurement: `Measurement` and its `Value` (Measurement.Values); Measurement.Decimal has the text that the
--     standard library's streams write of an integer.
--   Instrument: the interface, what its base does, and a test that calls the operations in order.
--   Mali.Cores: the count of the cores and `_core_index_remap`. Mali.GpuProps: `gpu_props`,
--     `gpu_property_mapping` and the loop over the properties' bytes. Mali.Kernel: the requests of hwc.hpp and
--     the kernel that answers them. Mali.State: the members of `MaliCounter`, together with the calls made so
--     far. Mali.HwInfo: `get_mali_hw_info`. Mali.Init: `init` and `term`; Mali.Init.Starts, Mali.Init.Succeeds
--     and Mali.Init.Newer are about `init` on devices that grant what it asks for, in general, with the older
--     and with the newer interface. Mali.Sampling: `sample_counters`, `wait_next_event` and `get_counters`.
--     Mali.Counter: the constructor, the destructor, `start`, `stop` and `measurements`; Mali.Counter.Sampled says
--     what a sample has for each counter without the code's search, and Mali.HwInfo.Reported and Mali.GpuProps.Said
--     what a list of properties says without the code's table.
--   Mali.Layout: the same table as offsets into the bytes of the structure (Mali.Layout.Types computes offsets
--     and sizes, Mali.Layout.Structures has the structures of hwc.hpp, Mali.Layout.Memory reads and writes
--     numbers in bytes), and the stores of `get_mali_hw_info` through a pointer. Mali.Layout.Loop is the loop
--     over the buffer with those stores, Mali.Layout.Filled compares it with the one of Mali.GpuProps.
--   Mali.Requests: the numbers of the requests.
--   Pmu: `PMU`; Pmu.Lifecycle is about its descriptors, Pmu.Config is `config_to_str`, Pmu.Counter is
--     `PMUCounter`.
--   Stats: `InstrumentsStats`. Stats.StdSort says what `std::sort` does, Stats.Insertion is a sort that does so;
--     Stats.Indices and Stats.Ranks are about the sorted indices, Stats.Constructed, Stats.Sums and Stats.Mean
--     about the sums.
--   Tests: a device, objects and values on which the theorems are applied.
--
-- How code and model correspond. A function of the code is the definition of its name; the parts of a long
-- function are definitions of their own, in the code's order (`init_device` to `init_buffers` for `init`). An
-- exception keeps the state at its throw. The kernel is a parameter, and its answers may depend on all calls
-- before. A pointer into the counter buffer is an offset into a list of words; a read outside of it is a
-- fault. Unsigned arithmetic keeps its wrap-around; that of `long long`, which C++ leaves undefined out of its
-- range, wraps too, and the theorems on it have the range as a condition. The type `double` is a parameter of Measurement.
--
-- Fuel: the loop over the properties takes as much as the buffer has bytes, since a round takes five at
-- least; the loop over the core mask takes 32, since a round clears a bit of 32; the digits of a number take
-- one more than the number.
--
-- `std::sort` is a parameter with the guarantees of the standard: it rearranges the indices in ascending
-- order if the comparison is a strict weak order on them, as it is for integer measurements. Comparisons of
-- floating point numbers need not be one, and the theorems on the statistics are about integers.
--
-- Not modelled: what is logged; the copy and move operations of the classes, which are defaulted; what the
-- kernel does with the structures of the requests beyond the members that the code reads; memory that runs out;
-- the build files.
pub mod Common
pub mod Names
pub mod Measurement
pub mod Mali
pub mod Pmu
pub mod Stats
pub mod Instrument
pub mod Tests
