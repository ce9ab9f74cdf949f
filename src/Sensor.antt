-- ===== src/Sensor.antt =====
-- The package pkg/sensor: the cache of the tasks that the kernel's events tell of, the events about
-- containers, and the filter of a subscription by containers.
pub mod Task
pub mod TaskCache
pub mod ProcessInfo
pub mod ContainerEvents
pub mod ContainerFilter
mod Tests
mod ContainerTests
