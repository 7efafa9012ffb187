-- ===== src/Import.antt =====
-- gcimport/src/gcimport: the service that checks uploaded features and upserts them in batches.
pub mod Json
pub mod Profile
pub mod Geometry
pub mod Feature
pub mod Document
pub mod Batches
pub mod Convert
pub mod Sosi
pub mod App
mod Tests
