-- ===== src/Examples.antt =====
-- Concrete inputs and runs of the theorems on them.
mod Tables
mod Readings
mod Paging
mod Exceptions
mod Traces
mod Steps
mod Messages
mod Benchmarks
mod Programs
mod Runs
mod Measured
mod Dumps
mod Clocks
mod Frames
