-- ===== src/Perf.antt =====
-- The package pkg/sys/perf: the copy-on-write maps of the event monitor, the trace event decoders
-- and the fields of a trace event.
pub mod SafeMap
pub mod TypeNames
pub mod TraceField
pub mod Decode
pub mod DecoderMap
pub mod Reader
pub mod Attr
pub mod Record
pub mod Sample
pub mod Monitor
pub mod RingBuffer
mod Tests
mod SampleTests
mod MonitorTests
mod RingBufferTests
