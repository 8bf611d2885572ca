-- ===== src/Registry/Calls.antt =====
-- registry/store.py: any of the calls that change the registry.
use geo_nexus_sdk.Base.{String, Bool, Option, List, [], ◌∷◌, Outcome, return, raise, ◌≡◌, refl}
use geo_nexus_sdk.Registry.Models.{RegistryEntry, SkillEntry, PluginEntry}
use geo_nexus_sdk.Registry.Store.{Codec, RegistryStore, Method, RegistryError}
use geo_nexus_sdk.Registry.Cards.{register, register_or_update, unregister, set_status}
use geo_nexus_sdk.Registry.Skills.{register_skill, register_skill_or_update, unregister_skill}
use geo_nexus_sdk.Registry.Plugins.{register_plugin, review_plugin, remove_plugin}

pub data Call : Type 0 where
  add_card update_card : RegistryEntry → Call
  drop_card : String → Call
  -- the time, the card, the status, the remark and the reviewer
  set_card_status : String → String → String → Option String → Option String → Call
  add_skill update_skill : SkillEntry → Call
  drop_skill : String → Call
  add_plugin : PluginEntry → Call
  review : String → String → Bool → Option String → Option String → Call
  drop_plugin : String → String → Call

pub data Answer : Type 0 where
  done : Answer
  added : Bool → Answer
  card : RegistryEntry → Answer
  skill : SkillEntry → Answer
  plugin : PluginEntry → Answer

abbrev pub answer :
    {S A : Type 0} → (A → Answer) → Outcome RegistryError A × S → Outcome RegistryError Answer × S
answer f (return a, s) = (return (f a), s)
answer f (raise e, s) = (raise e, s)

pub answer_state :
    {S A : Type 0} (f : A → Answer) (r : Outcome RegistryError A × S) → (answer f r).1 ≡ r.1
answer_state f (return a, s) = refl
answer_state f (raise e, s) = refl

module _ {J : Type 0} (codec : Codec J) where
  unfoldable pub perform : Call → Method codec Answer
  perform (add_card e) s = answer (λ _. done) (register codec e s)
  perform (update_card e) s = answer added (register_or_update codec e s)
  perform (drop_card id) s = answer card (unregister codec id s)
  perform (set_card_status now id status remark by) s =
      answer card (set_status codec now id status remark by s)
  perform (add_skill e) s = answer (λ _. done) (register_skill codec e s)
  perform (update_skill e) s = answer added (register_skill_or_update codec e s)
  perform (drop_skill name) s = answer skill (unregister_skill codec name s)
  perform (add_plugin e) s = answer (λ _. done) (register_plugin codec e s)
  perform (review name version approved remark by) s =
      answer plugin (review_plugin codec name version approved remark by s)
  perform (drop_plugin name version) s = answer plugin (remove_plugin codec name version s)

  -- The answers of a history of calls, and the store after it.
  unfoldable pub perform_all :
      List Call → RegistryStore J → List (Outcome RegistryError Answer) × RegistryStore J
  perform_all [] s = ([], s)
  perform_all (c ∷ cs) s =
      let step = perform c s in let rest = perform_all cs step.1 in (step.0 ∷ rest.0, rest.1)
