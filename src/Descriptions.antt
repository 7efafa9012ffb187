-- ===== src/Descriptions.antt =====
-- geocomponents/src/geocomponents/descriptions: the descriptions of datasets and their resolution.
pub mod Models
pub mod Fields
pub mod Derived
pub mod Loader
mod Tests
