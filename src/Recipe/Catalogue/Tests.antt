-- ===== src/Recipe/Catalogue/Tests.antt =====
-- The theorems about the catalogue of recipes at concrete inputs.
use geo_nexus_sdk.Base.{
  get_or, insert, ◌≡◌, refl, none, some, List, [], ◌∷◌, String, int, pos, true, false, return,
}
use geo_nexus_sdk.Registry.Models.{status_approved}
use geo_nexus_sdk.Recipe.Model.{ParamSpec, Recipe}
use geo_nexus_sdk.Recipe.Checks.{recipe_problems}
use geo_nexus_sdk.Recipe.Catalogue.{
  RecipeEntry, RecipeForm, Catalogue, Registration, entry_of, register, reload,
}
use geo_nexus_sdk.Recipe.Catalogue.Lookup.{resolve}
use geo_nexus_sdk.Recipe.Catalogue.Latest.{Resolves, resolve-Resolves}
use geo_nexus_sdk.Recipe.Catalogue.Fork.{ForkRequest}
use geo_nexus_sdk.Recipe.Catalogue.Kept.{
  Call, registers, approves, rejects, removes, reloads, new_catalogue, IsSound,
}
use geo_nexus_sdk.Recipe.Catalogue.Sound.{perform_all, perform_all-IsSound}
use geo_nexus_sdk.Recipe.Tests.{year, sensor, wetland, read_number, read_real}

abbrev newer : Recipe
newer = record wetland { id = "recipe://delta/wetland@1.10.0" }

abbrev approved : Registration
approved = record {
  provider_url = "";
  status = status_approved;
  submitted_by = none;
  replace = false;
  review_note = none;
  now = "t0";
}

abbrev wanted : ForkRequest
wanted = record {
  namespace = none;
  name = none;
  version = none;
  params = [];
  fixed = ("year", int (pos 2021)) ∷ [];
  title = some "Fork";
  register_it = true;
  approved_only = true;
  provider_url = "";
  now = "t1";
}

-- A recipe stands for its JSON form here.
abbrev plain_form : RecipeForm Recipe
plain_form = record { dump = λ r. r; load = some }

abbrev two_recipes : Catalogue Recipe
two_recipes =
    perform_all read_number read_real
      (registers wetland approved ∷ registers newer (record approved { now = "t2" }) ∷ [])
      (new_catalogue plain_form)

abbrev calls : List Call
calls =
    registers wetland approved
    ∷ registers newer approved
    ∷ rejects "recipe://delta/wetland@1.10.0" none none "t3"
    ∷ approves "recipe://delta/wetland" none none "t4"
    ∷ removes "recipe://delta/wetland@1.0.0"
    ∷ reloads "t5"
    ∷ []

abbrev bare : String
bare = "recipe://delta/wetland"

abbrev newest_entry : RecipeEntry
newest_entry = entry_of newer (record approved { now = "t2" })

-- The newest of two, which is not the one whose text is greater.
resolved-newest : resolve bare true two_recipes ≡ return (some newest_entry)
unfolding resolve perform_all register recipe_problems insert get_or
resolved-newest = refl

resolve-Resolves_example : Resolves bare true two_recipes newest_entry
resolve-Resolves_example = resolve-Resolves bare true two_recipes newest_entry resolved-newest

abbrev pinned_year : ParamSpec
pinned_year = record year { scope = "fixed"; default = int (pos 2021) }

abbrev forked_wetland : Recipe
forked_wetland = record newer {
  id = "recipe://delta/wetland-fork@1.0.0";
  name = "Fork";
  params = pinned_year ∷ sensor ∷ [];
}

perform_all-IsSound_example :
    IsSound plain_form (perform_all read_number read_real calls (new_catalogue plain_form))
    × (reload "t6" (perform_all read_number read_real calls (new_catalogue plain_form))
        ≡ (return tt, perform_all read_number read_real calls (new_catalogue plain_form)))
perform_all-IsSound_example =
    perform_all-IsSound plain_form (λ r fine. refl) read_number read_real calls "t6"
