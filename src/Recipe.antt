-- ===== src/Recipe.antt =====
-- src/geonexus/recipe: composed cases, from their declaration to the graph of tasks of one run.
pub mod Address
pub mod Model
pub mod Checks
pub mod Queries
pub mod Renamed
pub mod Built
pub mod Params
pub mod Resources
pub mod Templates
pub mod Templated
pub mod Materialize
pub mod Endings
pub mod Faults
pub mod Filled
pub mod Planned
pub mod Settled
pub mod Contracted
pub mod Returned
pub mod Catalogue
pub mod Tests
