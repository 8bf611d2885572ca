-- ===== src/Geocard.antt =====
-- geocard: the resource card. Each module models one file of the package.
pub mod Model
pub mod Contract
pub mod Visibility
