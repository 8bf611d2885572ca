-- ===== src/Registry.antt =====
-- geonexus/registry: the shared catalogue of cards, skills and plugins, with their review.
pub mod Models
pub mod Store
pub mod Cards
pub mod Skills
pub mod Plugins
pub mod Calls
pub mod Promise
pub mod Catalogue
pub mod Reload
pub mod Hidden
mod Tests
