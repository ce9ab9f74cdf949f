-- ===== src/Container.antt =====
-- The package pkg/container: what the sensor knows of the containers on its node.
pub mod Cache
mod Tests
