-- ===== src/Registry/Tests.antt =====
-- The theorems about the registry at concrete inputs, and runs of its methods.
use geo_nexus_sdk.Base.{
  true, false, Option, none, some, List, [], ◌∷◌, ◌≡◌, refl, lookup, All, return, raise, ◌==◌,
}
use geo_nexus_sdk.Geocard.Model.{GeoCard, capability_names}
use geo_nexus_sdk.Geocard.Contract.{ContractRequest, ContractResult}
use geo_nexus_sdk.Registry.Models.{
  RegistryEntry, SkillEntry, PluginEntry, status_approved, status_pending,
}
use geo_nexus_sdk.Registry.Store.{Codec, RegistryStore, entry_conflict, open_store}
use geo_nexus_sdk.Registry.Cards.{
  SearchRequest, search, search_in, passes_filters, has_constraint, contract_of, register, reject,
}
use geo_nexus_sdk.Registry.Calls.{Call, add_card, drop_card, add_plugin, review, perform_all}
use geo_nexus_sdk.Registry.Promise.{IsKeyed, promise_all, view}
use geo_nexus_sdk.Registry.Catalogue.{perform_all-refines}
use geo_nexus_sdk.Registry.Reload.{IsFaithful, IsKept, perform_all-reopen}
use geo_nexus_sdk.Registry.Hidden.{search-rejected}

-- JSON forms that keep the entry.
data Form : Type 0 where
  of_card : RegistryEntry → Form
  of_skill : SkillEntry → Form
  of_plugin : PluginEntry → Form

abbrev card_in : Form → Option RegistryEntry
card_in (of_card e) = some e
card_in (of_skill e) = none
card_in (of_plugin e) = none

abbrev skill_in : Form → Option SkillEntry
skill_in (of_card e) = none
skill_in (of_skill e) = some e
skill_in (of_plugin e) = none

abbrev plugin_in : Form → Option PluginEntry
plugin_in (of_card e) = none
plugin_in (of_skill e) = none
plugin_in (of_plugin e) = some e

abbrev forms : Codec Form
forms = record {
  dump_card = of_card;
  load_card = card_in;
  dump_skill = of_skill;
  load_skill = skill_in;
  dump_plugin = of_plugin;
  load_plugin = plugin_in;
}

forms-IsFaithful : IsFaithful forms
forms-IsFaithful = record { card = λ e. refl; skill = λ e. refl; plugin = λ e. refl }

abbrev scene_card : GeoCard
scene_card = record {
  id = "scene";
  type = "raster";
  name = "Scene";
  description = "A scene";
  tags = "water" ∷ [];
  spatial = none;
  temporal = none;
  bands = [];
  capabilities = [];
  provenance = none;
  runtime = none;
}

abbrev scene : RegistryEntry
scene = record {
  card = scene_card;
  node_url = "http://node";
  registered_at = "2026-01-01";
  status = status_approved;
  review_note = none;
  review_history = [];
  submitted_by = none;
}

abbrev demo : PluginEntry
demo = record {
  name = "demo";
  version = "1.0";
  plane = "server";
  install_ref = "demo==1.0";
  sha256 = none;
  description = "";
  tags = [];
  status = status_pending;
  submitted_by = none;
  review_note = none;
  registered_at = "2026-01-01";
}

abbrev empty : RegistryStore Form
empty = record { cards = []; skills = []; plugins = []; persistent = true; file = none }

abbrev holding : RegistryStore Form
holding = record {
  cards = ("scene", scene) ∷ [];
  skills = [];
  plugins = [];
  persistent = false;
  file = none;
}

abbrev history : List Call
history =
    add_card scene
    ∷ add_card scene
    ∷ add_plugin demo
    ∷ review "demo" "1.0" true none (some "admin")
    ∷ drop_card "scene"
    ∷ []

opened : open_store forms true none ≡ return empty
unfolding open_store
opened = refl

-- A second registration is refused, and changes nothing.
registered_twice : register forms scene holding ≡ (raise (entry_conflict "scene"), holding)
unfolding register lookup
registered_twice = refl

perform_all-refines_example :
    ((perform_all forms history empty).0 ≡ (promise_all history (view empty)).0)
    × (view (perform_all forms history empty).1 ≡ (promise_all history (view empty)).1)
    × IsKeyed (perform_all forms history empty).1
perform_all-refines_example =
    perform_all-refines forms history empty
      (record { one_card = tt; one_skill = tt; one_plugin = tt })

perform_all-reopen_example :
    open_store forms true (perform_all forms history empty).1.file
    ≡ return (perform_all forms history empty).1
perform_all-reopen_example = perform_all-reopen forms history empty forms-IsFaithful opened

abbrev no_check : GeoCard → ContractRequest → ContractResult
no_check card r = record { satisfied = true; reasons = []; warnings = [] }

abbrev everything : SearchRequest
everything = record {
  capability = none;
  type = none;
  tags = [];
  contract = record {
    bbox = none;
    crs = none;
    start = none;
    end = none;
    required_bands = none;
    required_resolution = none;
  };
  contract_gate = true;
  status = some status_approved;
}

found : search no_check everything holding ≡ (record { entry = scene; contract = none }) ∷ []
unfolding search search_in passes_filters contract_of has_constraint capability_names
found = refl

holding-IsKept : IsKept forms false holding
holding-IsKept = record {
  at_path = refl;
  saved = λ h. cc;
  one_card = (refl, tt);
  one_skill = tt;
  one_plugin = tt;
  own_card = (refl, tt);
  own_skill = tt;
  own_plugin = tt;
}

search-rejected_example :
    All
      (λ r. (r.entry.card.id == "scene") ≡ false)
      (search no_check everything
        (perform_all forms
          (add_plugin demo ∷ [])
          (reject forms "2026-01-02" "scene" (some "blurred") none holding).1).1)
search-rejected_example =
    search-rejected no_check forms "2026-01-02" "scene" (some "blurred") none holding
      (add_plugin demo ∷ []) everything holding-IsKept (refl, tt) refl
