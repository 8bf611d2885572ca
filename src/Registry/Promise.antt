-- ===== src/Registry/Promise.antt =====
-- registry/store.py: what it promises, on three maps from an id to an entry.
use geo_nexus_sdk.Base.{
  String, not, Option, none, some, List, [], ◌∷◌, Dict, ◌≡◌, lookup, insert, remove, keys, contains,
  Distinct, lookup-insert, lookup-remove, is_some, if◌then◌else◌, Outcome, return, raise, ◌==◌,
}
use mathlib.Core.Path.{fun_ext}
use geo_nexus_sdk.Registry.Models.{
  RegistryEntry, SkillEntry, PluginEntry, review_statuses, address_of, address,
}
use geo_nexus_sdk.Registry.Store.{
  RegistryStore, RegistryError, entry_conflict, entry_not_found, skill_conflict, skill_not_found,
  plugin_conflict, plugin_not_found, invalid_status,
}
use geo_nexus_sdk.Registry.Cards.{reviewed}
use geo_nexus_sdk.Registry.Plugins.{reviewed_plugin}
use geo_nexus_sdk.Registry.Calls.{
  Call, add_card, update_card, drop_card, set_card_status, add_skill, update_skill, drop_skill,
  add_plugin, review, drop_plugin, Answer, done, added, card, skill, plugin,
}

abbrev pub Finite : Type 0 → Type 0
Finite V = String → Option V

pub record Catalogue : Type 0 where
  pub cards : Finite RegistryEntry
  pub skills : Finite SkillEntry
  pub plugins : Finite PluginEntry

module _ {V : Type 0} where
  -- The map with one place changed.
  abbrev pub at : String → Option V → Finite V → Finite V
  at k o m = λ j. if k == j then o else m j

  abbrev pub view_of : Dict V → Finite V
  view_of d = λ k. lookup k d

  pub view_of-insert :
      (k : String) (v : V) (d : Dict V) → view_of (insert k v d) ≡ at k (some v) (view_of d)
  view_of-insert k v d = fun_ext (λ j. lookup-insert k j v d)

  pub view_of-remove :
      (k : String) (d : Dict V) → Distinct (keys d) → view_of (remove k d) ≡ at k none (view_of d)
  view_of-remove k d h = fun_ext (λ j. lookup-remove k j d h)

abbrev pub Reply : Type 0
Reply = Outcome RegistryError Answer × Catalogue

-- Three ways to answer: by the key that is free, by the entry that is there, or always.
module _ {V : Type 0} where
  abbrev pub claim : Option V → Reply → Reply → Reply
  claim none free taken = free
  claim (some v) free taken = taken

  abbrev pub with_entry : Option V → (V → Reply) → Reply → Reply
  with_entry none found absent = absent
  with_entry (some v) found absent = found v

-- What a call promises.
abbrev pub promise : Call → Catalogue → Reply
promise (add_card e) m =
    claim (m.cards e.card.id) (return done, record m { cards = at e.card.id (some e) m.cards })
      (raise (entry_conflict e.card.id), m)
promise (update_card e) m = (
  return (added (not (is_some (m.cards e.card.id)))),
  record m { cards = at e.card.id (some e) m.cards },
)
promise (drop_card id) m =
    with_entry (m.cards id) (λ e. (return (card e), record m { cards = at id none m.cards }))
      (raise (entry_not_found id), m)
promise (set_card_status now id status remark by) m =
    if contains status review_statuses
    then with_entry (m.cards id)
        (λ e. (
          return (card (reviewed status now remark by e)),
          record m { cards = at id (some (reviewed status now remark by e)) m.cards },
        ))
        (raise (entry_not_found id), m)
    else (raise (invalid_status status), m)
promise (add_skill e) m =
    claim (m.skills e.skill.name)
      (return done, record m { skills = at e.skill.name (some e) m.skills })
      (raise (skill_conflict e.skill.name), m)
promise (update_skill e) m = (
  return (added (not (is_some (m.skills e.skill.name)))),
  record m { skills = at e.skill.name (some e) m.skills },
)
promise (drop_skill name) m =
    with_entry (m.skills name)
      (λ e. (return (skill e), record m { skills = at name none m.skills }))
      (raise (skill_not_found name), m)
promise (add_plugin e) m =
    claim (m.plugins (address e))
      (return done, record m { plugins = at (address e) (some e) m.plugins })
      (raise (plugin_conflict (address e)), m)
promise (review name version approved remark by) m =
    with_entry (m.plugins (address_of name version))
      (λ e. (
        return (plugin (reviewed_plugin approved remark by e)),
        record m {
          plugins =
              at (address_of name version) (some (reviewed_plugin approved remark by e)) m.plugins;
        },
      ))
      (raise (plugin_not_found (address_of name version)), m)
promise (drop_plugin name version) m =
    with_entry (m.plugins (address_of name version))
      (λ e. (return (plugin e), record m { plugins = at (address_of name version) none m.plugins }))
      (raise (plugin_not_found (address_of name version)), m)

abbrev pub promise_all : List Call → Catalogue → List (Outcome RegistryError Answer) × Catalogue
promise_all [] m = ([], m)
promise_all (c ∷ cs) m =
    let step = promise c m in let rest = promise_all cs step.1 in (step.0 ∷ rest.0, rest.1)

-- No dictionary has a key twice.
pub record IsKeyed {J : Type 0} (s : RegistryStore J) : Type 0 where
  pub one_card : Distinct (keys s.cards)
  pub one_skill : Distinct (keys s.skills)
  pub one_plugin : Distinct (keys s.plugins)

abbrev pub view : {J : Type 0} → RegistryStore J → Catalogue
view s = record { cards = view_of s.cards; skills = view_of s.skills; plugins = view_of s.plugins }
