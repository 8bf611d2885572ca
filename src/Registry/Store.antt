-- ===== src/Registry/Store.antt =====
-- registry/store.py: the store of the registry. Each method holds the lock from start to end, so it is
-- one step from a store to an answer and a store. The file that the store is saved to is part of
-- the state; its JSON forms, and how they are read back, are the parameter `codec`.
use geo_nexus_sdk.Base.{
  String, Bool, Option, none, some, List, [], ◌∷◌, Dict, map, insert, values, if◌then◌else◌,
  Outcome, return, raise, Action,
}
use geo_nexus_sdk.Registry.Models.{RegistryEntry, SkillEntry, PluginEntry, address}

pub data RegistryError : Type 0 where
  entry_conflict entry_not_found skill_conflict skill_not_found : String → RegistryError
  plugin_conflict plugin_not_found invalid_status : String → RegistryError
  -- an entry of the file that does not validate
  invalid_entry : RegistryError

-- What json.dump writes.
pub record RegistryFile (J : Type 0) : Type 0 where
  pub cards : List J
  pub skills : List J
  pub plugins : List J

-- `to_dict` and `model_validate` of the entries.
pub record Codec (J : Type 0) : Type 0 where
  pub dump_card : RegistryEntry → J
  pub load_card : J → Option RegistryEntry
  pub dump_skill : SkillEntry → J
  pub load_skill : J → Option SkillEntry
  pub dump_plugin : PluginEntry → J
  pub load_plugin : J → Option PluginEntry

-- `persistent` says whether the store has a path; `file` is what is there, if anything.
pub record RegistryStore (J : Type 0) : Type 0 where
  pub cards : Dict RegistryEntry
  pub skills : Dict SkillEntry
  pub plugins : Dict PluginEntry
  pub persistent : Bool
  pub file : Option (RegistryFile J)

-- Reading back the entries of one kind.
module _ {J V : Type 0} (validate : J → Option V) (key : V → String) where
  unfoldable pub load_entries : List J → Dict V → Outcome RegistryError (Dict V)
  load_entries [] d = return d
  load_entries (raw ∷ raws) d = elim (validate raw) [
    | none ↦ raise invalid_entry
    | some e ↦ load_entries raws (insert (key e) e d)
  ]

module _ {J : Type 0} (codec : Codec J) where
  abbrev pub Method : Type 0 → Type 0
  Method A = Action RegistryError (RegistryStore J) A

  unfoldable pub save : RegistryStore J → RegistryStore J
  save s =
      if s.persistent
      then record s {
        file = some (record {
          cards = map codec.dump_card (values s.cards);
          skills = map codec.dump_skill (values s.skills);
          plugins = map codec.dump_plugin (values s.plugins);
        });
      }
      else s

  -- `__init__` on a path, with what is at that path; what was read before a failure is lost with
  -- the store that is not made.
  unfoldable pub open_store :
      Bool → Option (RegistryFile J) → Outcome RegistryError (RegistryStore J)
  unfolding load_entries
  open_store persistent file = elim (if persistent then file else none) [
    | none ↦
        return
          (record { cards = []; skills = []; plugins = []; persistent = persistent; file = none })
    | some saved ↦ elim (load_entries codec.load_card (λ e. e.card.id) saved.cards []) [
      | raise e ↦ raise e
      | return cards ↦ elim (load_entries codec.load_skill (λ e. e.skill.name) saved.skills []) [
        | raise e ↦ raise e
        | return skills ↦ elim (load_entries codec.load_plugin address saved.plugins []) [
          | raise e ↦ raise e
          | return plugins ↦ return (record {
            cards = cards;
            skills = skills;
            plugins = plugins;
            persistent = persistent;
            file = some saved;
          })
        ]
      ]
    ]
  ]

  unfoldable pub set_cards : Dict RegistryEntry → RegistryStore J → RegistryStore J
  unfolding save
  set_cards d s = save (record s { cards = d })

  unfoldable pub set_skills : Dict SkillEntry → RegistryStore J → RegistryStore J
  unfolding save
  set_skills d s = save (record s { skills = d })

  unfoldable pub set_plugins : Dict PluginEntry → RegistryStore J → RegistryStore J
  unfolding save
  set_plugins d s = save (record s { plugins = d })
