-- ===== src/Registry/Catalogue.antt =====
-- registry/store.py against what it promises: three maps from an id to an entry, in which a key is
-- free or taken. Order, the file and the keys of the dictionaries are forgotten.
use geo_nexus_sdk.Base.{
  String, not, none, some, List, [], ◌∷◌, Dict, ◌≡◌, refl, ap, ◌∙◌, arith, lookup, insert, remove,
  has, keys, contains, Distinct, Distinct-insert, Distinct-remove, Bool-cases, Option-cases, inl,
  inr, Outcome, return,
}
use geo_nexus_sdk.Registry.Models.{
  RegistryEntry, SkillEntry, PluginEntry, review_statuses, address_of, address,
}
use geo_nexus_sdk.Registry.Store.{
  Codec, RegistryStore, RegistryError, set_cards, set_skills, set_plugins, save,
}
use geo_nexus_sdk.Registry.Cards.{register, register_or_update, unregister, set_status, reviewed}
use geo_nexus_sdk.Registry.Skills.{register_skill, register_skill_or_update, unregister_skill}
use geo_nexus_sdk.Registry.Plugins.{register_plugin, review_plugin, remove_plugin, reviewed_plugin}
use geo_nexus_sdk.Registry.Calls.{
  Call, add_card, update_card, drop_card, set_card_status, add_skill, update_skill, drop_skill,
  add_plugin, review, drop_plugin, Answer, done, added, card, skill, plugin, perform, perform_all,
}
use geo_nexus_sdk.Registry.Promise.{
  at, view_of, view_of-insert, view_of-remove, Reply, promise, promise_all, IsKeyed, view,
}

module _ {J : Type 0} (codec : Codec J) where
  pub set_cards-view :
      (d : Dict RegistryEntry) (s : RegistryStore J)
      → view (set_cards codec d s) ≡ record (view s) { cards = view_of d }
  unfolding set_cards save
  set_cards-view d s = ground arith

  pub set_skills-view :
      (d : Dict SkillEntry) (s : RegistryStore J)
      → view (set_skills codec d s) ≡ record (view s) { skills = view_of d }
  unfolding set_skills save
  set_skills-view d s = ground arith

  pub set_plugins-view :
      (d : Dict PluginEntry) (s : RegistryStore J)
      → view (set_plugins codec d s) ≡ record (view s) { plugins = view_of d }
  unfolding set_plugins save
  set_plugins-view d s = ground arith

  pub set_cards-IsKeyed :
      (d : Dict RegistryEntry) (s : RegistryStore J)
      → IsKeyed s
      → Distinct (keys d)
      → IsKeyed (set_cards codec d s)
  unfolding set_cards save
  set_cards-IsKeyed d s k h = ground arith

  pub set_skills-IsKeyed :
      (d : Dict SkillEntry) (s : RegistryStore J)
      → IsKeyed s
      → Distinct (keys d)
      → IsKeyed (set_skills codec d s)
  unfolding set_skills save
  set_skills-IsKeyed d s k h = ground arith

  pub set_plugins-IsKeyed :
      (d : Dict PluginEntry) (s : RegistryStore J)
      → IsKeyed s
      → Distinct (keys d)
      → IsKeyed (set_plugins codec d s)
  unfolding set_plugins save
  set_plugins-IsKeyed d s k h = ground arith

  -- A step of the store with the answer and the map that the promise names.
  abbrev pub Refines : Outcome RegistryError Answer × RegistryStore J → Reply → Type 0
  Refines r p = (r.0 ≡ p.0) × (view r.1 ≡ p.1) × IsKeyed r.1

  put_card :
      (k : String) (e : RegistryEntry) (o : Outcome RegistryError Answer) (s : RegistryStore J)
      → IsKeyed s
      → Refines
          (o, set_cards codec (insert k e s.cards) s)
          (o, record (view s) { cards = at k (some e) (view_of s.cards) })
  put_card k e o s h = (
    refl,
    set_cards-view (insert k e s.cards) s
        ∙ ap (λ m. record (view s) { cards = m }) (view_of-insert k e s.cards),
    set_cards-IsKeyed (insert k e s.cards) s h (Distinct-insert k e s.cards h.one_card),
  )

  take_card :
      (k : String) (o : Outcome RegistryError Answer) (s : RegistryStore J)
      → IsKeyed s
      → Refines
          (o, set_cards codec (remove k s.cards) s)
          (o, record (view s) { cards = at k none (view_of s.cards) })
  take_card k o s h = (
    refl,
    set_cards-view (remove k s.cards) s
        ∙ ap (λ m. record (view s) { cards = m }) (view_of-remove k s.cards h.one_card),
    set_cards-IsKeyed (remove k s.cards) s h (Distinct-remove k s.cards h.one_card),
  )

  put_skill :
      (k : String) (e : SkillEntry) (o : Outcome RegistryError Answer) (s : RegistryStore J)
      → IsKeyed s
      → Refines
          (o, set_skills codec (insert k e s.skills) s)
          (o, record (view s) { skills = at k (some e) (view_of s.skills) })
  put_skill k e o s h = (
    refl,
    set_skills-view (insert k e s.skills) s
        ∙ ap (λ m. record (view s) { skills = m }) (view_of-insert k e s.skills),
    set_skills-IsKeyed (insert k e s.skills) s h (Distinct-insert k e s.skills h.one_skill),
  )

  take_skill :
      (k : String) (o : Outcome RegistryError Answer) (s : RegistryStore J)
      → IsKeyed s
      → Refines
          (o, set_skills codec (remove k s.skills) s)
          (o, record (view s) { skills = at k none (view_of s.skills) })
  take_skill k o s h = (
    refl,
    set_skills-view (remove k s.skills) s
        ∙ ap (λ m. record (view s) { skills = m }) (view_of-remove k s.skills h.one_skill),
    set_skills-IsKeyed (remove k s.skills) s h (Distinct-remove k s.skills h.one_skill),
  )

  put_plugin :
      (k : String) (e : PluginEntry) (o : Outcome RegistryError Answer) (s : RegistryStore J)
      → IsKeyed s
      → Refines
          (o, set_plugins codec (insert k e s.plugins) s)
          (o, record (view s) { plugins = at k (some e) (view_of s.plugins) })
  put_plugin k e o s h = (
    refl,
    set_plugins-view (insert k e s.plugins) s
        ∙ ap (λ m. record (view s) { plugins = m }) (view_of-insert k e s.plugins),
    set_plugins-IsKeyed (insert k e s.plugins) s h (Distinct-insert k e s.plugins h.one_plugin),
  )

  take_plugin :
      (k : String) (o : Outcome RegistryError Answer) (s : RegistryStore J)
      → IsKeyed s
      → Refines
          (o, set_plugins codec (remove k s.plugins) s)
          (o, record (view s) { plugins = at k none (view_of s.plugins) })
  take_plugin k o s h = (
    refl,
    set_plugins-view (remove k s.plugins) s
        ∙ ap (λ m. record (view s) { plugins = m }) (view_of-remove k s.plugins h.one_plugin),
    set_plugins-IsKeyed (remove k s.plugins) s h (Distinct-remove k s.plugins h.one_plugin),
  )

  pub perform-Refines :
      (c : Call) (s : RegistryStore J)
      → IsKeyed s
      → Refines (perform codec c s) (promise c (view s))
  unfolding perform register register_or_update unregister set_status register_skill
      register_skill_or_update unregister_skill register_plugin review_plugin remove_plugin
  perform-Refines (add_card e) s h = elim (Option-cases (lookup e.card.id s.cards)) [
    | inl free ↦ rw (free, perform, register) (put_card e.card.id e (return done) s h)
    | inr (old, taken) ↦ rw (taken, perform, register) (refl, refl, h)
  ]
  perform-Refines (update_card e) s h =
      put_card e.card.id e (return (added (not (has e.card.id s.cards)))) s h
  perform-Refines (drop_card id) s h = elim (Option-cases (lookup id s.cards)) [
    | inl absent ↦ rw (absent, perform, unregister) (refl, refl, h)
    | inr (e, found) ↦ rw (found, perform, unregister) (take_card id (return (card e)) s h)
  ]
  perform-Refines (set_card_status now id status remark by) s h =
      elim (Bool-cases (contains status review_statuses)) [
        | inr unknown ↦ rw (unknown, perform, set_status) (refl, refl, h)
        | inl valid ↦ elim (Option-cases (lookup id s.cards)) [
          | inl absent ↦ rw (valid, absent, perform, set_status) (refl, refl, h)
          | inr (e, found) ↦
              rw (valid, found, perform, set_status)
                (put_card id (reviewed status now remark by e)
                  (return (card (reviewed status now remark by e))) s h)
        ]
      ]
  perform-Refines (add_skill e) s h = elim (Option-cases (lookup e.skill.name s.skills)) [
    | inl free ↦ rw (free, perform, register_skill) (put_skill e.skill.name e (return done) s h)
    | inr (old, taken) ↦ rw (taken, perform, register_skill) (refl, refl, h)
  ]
  perform-Refines (update_skill e) s h =
      put_skill e.skill.name e (return (added (not (has e.skill.name s.skills)))) s h
  perform-Refines (drop_skill name) s h = elim (Option-cases (lookup name s.skills)) [
    | inl absent ↦ rw (absent, perform, unregister_skill) (refl, refl, h)
    | inr (e, found) ↦
        rw (found, perform, unregister_skill) (take_skill name (return (skill e)) s h)
  ]
  perform-Refines (add_plugin e) s h = elim (Option-cases (lookup (address e) s.plugins)) [
    | inl free ↦ rw (free, perform, register_plugin) (put_plugin (address e) e (return done) s h)
    | inr (old, taken) ↦ rw (taken, perform, register_plugin) (refl, refl, h)
  ]
  perform-Refines (review name version approved remark by) s h =
      elim (Option-cases (lookup (address_of name version) s.plugins)) [
        | inl absent ↦ rw (absent, perform, review_plugin) (refl, refl, h)
        | inr (e, found) ↦
            rw (found, perform, review_plugin)
              (put_plugin (address_of name version) (reviewed_plugin approved remark by e)
                (return (plugin (reviewed_plugin approved remark by e))) s h)
      ]
  perform-Refines (drop_plugin name version) s h =
      elim (Option-cases (lookup (address_of name version) s.plugins)) [
        | inl absent ↦ rw (absent, perform, remove_plugin) (refl, refl, h)
        | inr (e, found) ↦
            rw (found, perform, remove_plugin)
              (take_plugin (address_of name version) (return (plugin e)) s h)
      ]

  -- Whatever calls are made on a registry without a double key, the answers are those that three
  -- finite maps promise, the maps that the registry holds afterwards are the promised ones, and no
  -- key is double.
  pub perform_all-refines :
      (cs : List Call) (s : RegistryStore J)
      → IsKeyed s
      → ((perform_all codec cs s).0 ≡ (promise_all cs (view s)).0)
        × (view (perform_all codec cs s).1 ≡ (promise_all cs (view s)).1)
        × IsKeyed (perform_all codec cs s).1
  unfolding perform_all
  perform_all-refines [] s h = (refl, refl, h)
  perform_all-refines (c ∷ cs) s h =
      let step = perform-Refines c s h in
      let rest = perform_all-refines cs (perform codec c s).1 step.2 in
      rw (← step.1, ← step.0) (ap (λ r. (perform codec c s).0 ∷ r) rest.0, rest.1, rest.2)
