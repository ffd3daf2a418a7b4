-- ===== src/Instrument.antt =====
-- instrument.h: the interface of the instruments, on objects whose state is `S`. A class overrides some of the
-- operations of the base.
use hwcpipe.Common.{String, List, []}
use hwcpipe.Common.Outcome.{M, ◌>>=◌, ◌>>◌, return}
use hwcpipe.Measurement.{Measurement}

pub data ScaleFactor : Type 0 where
  none scale_1k scale_1m time_us time_ms time_s : ScaleFactor

-- `std::map<std::string, Measurement>`.
abbrev pub MeasurementsMap : Type 0
MeasurementsMap = List (String × Measurement)

pub record Instrument (S : Type 0) : Type 0 where
  pub id : String
  pub test_start : M S (Unit {0})
  pub start : M S (Unit {0})
  pub stop : M S (Unit {0})
  pub test_stop : M S (Unit {0})
  pub measurements : M S MeasurementsMap
  pub test_measurements : M S MeasurementsMap

-- What the base does itself; the identifier is the class's.
abbrev pub base : {S : Type 0} → String → Instrument S
base id = record {
  id = id;
  test_start = return tt;
  start = return tt;
  stop = return tt;
  test_stop = return tt;
  measurements = return [];
  test_measurements = return [];
}

-- A test, with the calls in the order that the comments of the interface give, and what it measured.
abbrev pub session : {S : Type 0} → Instrument S → M S (MeasurementsMap × MeasurementsMap)
session i = do
  i.test_start
  i.start
  i.stop
  i.test_stop
  ms ← i.measurements
  tests ← i.test_measurements
  return (ms, tests)
