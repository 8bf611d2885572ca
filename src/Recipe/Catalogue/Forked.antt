-- ===== src/Recipe/Catalogue/Forked.antt =====
-- recipe/registry.py: what a fork is, and what it leaves alone.
use geo_nexus_sdk.Base.{Real, ℤ, String, true, false, Option, some, return, ◌≡◌}
use geo_nexus_sdk.Recipe.Model.{Recipe}
use geo_nexus_sdk.Recipe.Catalogue.{RecipeEntry, Catalogue}
use geo_nexus_sdk.Recipe.Catalogue.Lookup.{resolve}
use geo_nexus_sdk.Recipe.Catalogue.Fork.{ForkRequest}
use geo_nexus_sdk.Recipe.Catalogue.Derivation.{Derived, Added}

-- A fork that is made.
pub record Forks {J : Type 0} (read_int : String → Option ℤ) (read_float : String → Option Real)
    (address : String) (q : ForkRequest) (c : Catalogue J) (r : Recipe) (c' : Catalogue J)
    : Type 0 where
  pub source : RecipeEntry
  pub found : resolve address q.approved_only c ≡ return (some source)
  pub derived : Derived read_int read_float source.recipe q r
  pub added : q.register_it ≡ true → Added r c c'
  pub unregistered : q.register_it ≡ false → c' ≡ c
