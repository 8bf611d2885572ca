-- ===== src/Registry/Reload.antt =====
-- registry/store.py, _save and _load: what a restart finds in the file.
use geo_nexus_sdk.Base.{
  insert-new, fresh_key, Named, Named-insert, Named-remove, Named-lookup, String, Bool, true, false,
  Option, none, some, List, [], ◌∷◌, ◌++◌, Dict, map, ◌≡◌, ◌⊎◌, inl, inr, refl, sym, ap, subst, ◌∙◌,
  arith, lookup, insert, remove, keys, values, contains, Distinct, Distinct-insert, Distinct-remove,
  Bool-cases, Option-cases, return,
}
use mathlib.Core.List.{append-nil, append_assoc}
use geo_nexus_sdk.Registry.Models.{
  RegistryEntry, SkillEntry, PluginEntry, review_statuses, address_of, address,
}
use geo_nexus_sdk.Registry.Store.{
  Codec, RegistryFile, RegistryStore, load_entries, open_store, save, set_cards, set_skills,
  set_plugins,
}
use geo_nexus_sdk.Registry.Cards.{register, register_or_update, unregister, set_status, reviewed}
use geo_nexus_sdk.Registry.Skills.{register_skill, register_skill_or_update, unregister_skill}
use geo_nexus_sdk.Registry.Plugins.{register_plugin, review_plugin, remove_plugin, reviewed_plugin}
use geo_nexus_sdk.Registry.Calls.{
  Call, add_card, update_card, drop_card, set_card_status, add_skill, update_skill, drop_skill,
  add_plugin, review, drop_plugin, perform, perform_all,
}

module _ {V : Type 0} (key : V → String) where
  module _ {J : Type 0} (dump : V → J) (validate : J → Option V)
      (faithful : (v : V) → validate (dump v) ≡ some v) where
    -- Reading back what was written appends it.
    pub load_entries-dump :
        (rest d : Dict V)
        → Named key rest
        → Distinct (keys (d ++ rest))
        → load_entries validate key (map dump (values rest)) d ≡ return (d ++ rest)
    unfolding load_entries
    load_entries-dump [] d h one = ap return (sym (append-nil d))
    load_entries-dump ((k, v) ∷ rest) d h one =
        rw (faithful v, h.0, insert-new k v d (fresh_key k v d rest one), load_entries)
          (load_entries-dump rest (d ++ (k, v) ∷ []) h.1
              (subst (λ l. Distinct (keys l)) (sym (append_assoc d ((k, v) ∷ []) rest)) one)
            ∙ ap return (append_assoc d ((k, v) ∷ []) rest))

-- What `save` writes.
module _ {J : Type 0} (codec : Codec J) where
  abbrev pub snapshot : RegistryStore J → RegistryFile J
  snapshot s = record {
    cards = map codec.dump_card (values s.cards);
    skills = map codec.dump_skill (values s.skills);
    plugins = map codec.dump_plugin (values s.plugins);
  }

  -- The file of a persistent store: absent, while nothing was written, or what the store holds.
  abbrev pub Saved : RegistryStore J → Type 0
  Saved s =
      ((s.file ≡ none) × (s.cards ≡ []) × (s.skills ≡ []) × (s.plugins ≡ []))
      ⊎ (s.file ≡ some (snapshot s))

  pub record IsKept (path : Bool) (s : RegistryStore J) : Type 0 where
    pub at_path : s.persistent ≡ path
    pub saved : path ≡ true → Saved s
    pub one_card : Distinct (keys s.cards)
    pub one_skill : Distinct (keys s.skills)
    pub one_plugin : Distinct (keys s.plugins)
    pub own_card : Named (λ e. e.card.id) s.cards
    pub own_skill : Named (λ e. e.skill.name) s.skills
    pub own_plugin : Named address s.plugins

  pub set_cards-IsKept :
      (path : Bool) (d : Dict RegistryEntry) (s : RegistryStore J)
      → IsKept path s
      → Distinct (keys d)
      → Named (λ e. e.card.id) d
      → IsKept path (set_cards codec d s)
  unfolding set_cards save
  set_cards-IsKept true d s k one own = rw k.at_path (record {
    at_path = refl;
    saved = λ _. inr refl;
    one_card = one;
    one_skill = k.one_skill;
    one_plugin = k.one_plugin;
    own_card = own;
    own_skill = k.own_skill;
    own_plugin = k.own_plugin;
  })
  set_cards-IsKept false d s k one own = rw k.at_path (record {
    at_path = refl;
    saved = λ h. cc;
    one_card = one;
    one_skill = k.one_skill;
    one_plugin = k.one_plugin;
    own_card = own;
    own_skill = k.own_skill;
    own_plugin = k.own_plugin;
  })

  pub set_skills-IsKept :
      (path : Bool) (d : Dict SkillEntry) (s : RegistryStore J)
      → IsKept path s
      → Distinct (keys d)
      → Named (λ e. e.skill.name) d
      → IsKept path (set_skills codec d s)
  unfolding set_skills save
  set_skills-IsKept true d s k one own = rw k.at_path (record {
    at_path = refl;
    saved = λ _. inr refl;
    one_card = k.one_card;
    one_skill = one;
    one_plugin = k.one_plugin;
    own_card = k.own_card;
    own_skill = own;
    own_plugin = k.own_plugin;
  })
  set_skills-IsKept false d s k one own = rw k.at_path (record {
    at_path = refl;
    saved = λ h. cc;
    one_card = k.one_card;
    one_skill = one;
    one_plugin = k.one_plugin;
    own_card = k.own_card;
    own_skill = own;
    own_plugin = k.own_plugin;
  })

  pub set_plugins-IsKept :
      (path : Bool) (d : Dict PluginEntry) (s : RegistryStore J)
      → IsKept path s
      → Distinct (keys d)
      → Named address d
      → IsKept path (set_plugins codec d s)
  unfolding set_plugins save
  set_plugins-IsKept true d s k one own = rw k.at_path (record {
    at_path = refl;
    saved = λ _. inr refl;
    one_card = k.one_card;
    one_skill = k.one_skill;
    one_plugin = one;
    own_card = k.own_card;
    own_skill = k.own_skill;
    own_plugin = own;
  })
  set_plugins-IsKept false d s k one own = rw k.at_path (record {
    at_path = refl;
    saved = λ h. cc;
    one_card = k.one_card;
    one_skill = k.one_skill;
    one_plugin = one;
    own_card = k.own_card;
    own_skill = k.own_skill;
    own_plugin = own;
  })

  put_card :
      {path : Bool} (k : String) (e : RegistryEntry) (s : RegistryStore J)
      → e.card.id ≡ k
      → IsKept path s
      → IsKept path (set_cards codec (insert k e s.cards) s)
  put_card {path} k e s own h =
      set_cards-IsKept path (insert k e s.cards) s h (Distinct-insert k e s.cards h.one_card)
        (Named-insert (λ e. e.card.id) k e s.cards own h.own_card)

  take_card :
      {path : Bool} (k : String) (s : RegistryStore J)
      → IsKept path s
      → IsKept path (set_cards codec (remove k s.cards) s)
  take_card {path} k s h =
      set_cards-IsKept path (remove k s.cards) s h (Distinct-remove k s.cards h.one_card)
        (Named-remove (λ e. e.card.id) k s.cards h.own_card)

  put_skill :
      {path : Bool} (k : String) (e : SkillEntry) (s : RegistryStore J)
      → e.skill.name ≡ k
      → IsKept path s
      → IsKept path (set_skills codec (insert k e s.skills) s)
  put_skill {path} k e s own h =
      set_skills-IsKept path (insert k e s.skills) s h (Distinct-insert k e s.skills h.one_skill)
        (Named-insert (λ e. e.skill.name) k e s.skills own h.own_skill)

  take_skill :
      {path : Bool} (k : String) (s : RegistryStore J)
      → IsKept path s
      → IsKept path (set_skills codec (remove k s.skills) s)
  take_skill {path} k s h =
      set_skills-IsKept path (remove k s.skills) s h (Distinct-remove k s.skills h.one_skill)
        (Named-remove (λ e. e.skill.name) k s.skills h.own_skill)

  put_plugin :
      {path : Bool} (k : String) (e : PluginEntry) (s : RegistryStore J)
      → address e ≡ k
      → IsKept path s
      → IsKept path (set_plugins codec (insert k e s.plugins) s)
  put_plugin {path} k e s own h =
      set_plugins-IsKept path (insert k e s.plugins) s h
        (Distinct-insert k e s.plugins h.one_plugin)
        (Named-insert address k e s.plugins own h.own_plugin)

  take_plugin :
      {path : Bool} (k : String) (s : RegistryStore J)
      → IsKept path s
      → IsKept path (set_plugins codec (remove k s.plugins) s)
  take_plugin {path} k s h =
      set_plugins-IsKept path (remove k s.plugins) s h (Distinct-remove k s.plugins h.one_plugin)
        (Named-remove address k s.plugins h.own_plugin)

  -- Every call keeps the store in its file.
  pub perform-IsKept :
      {path : Bool} (c : Call) (s : RegistryStore J)
      → IsKept path s
      → IsKept path (perform codec c s).1
  unfolding perform register register_or_update unregister set_status register_skill
      register_skill_or_update unregister_skill register_plugin review_plugin remove_plugin
  perform-IsKept (add_card e) s h = elim (Option-cases (lookup e.card.id s.cards)) [
    | inl free ↦ rw (free, perform, register) (put_card e.card.id e s refl h)
    | inr (old, taken) ↦ rw (taken, perform, register) h
  ]
  perform-IsKept (update_card e) s h = put_card e.card.id e s refl h
  perform-IsKept (drop_card id) s h = elim (Option-cases (lookup id s.cards)) [
    | inl absent ↦ rw (absent, perform, unregister) h
    | inr (e, found) ↦ rw (found, perform, unregister) (take_card id s h)
  ]
  perform-IsKept (set_card_status now id status remark by) s h =
      elim (Bool-cases (contains status review_statuses)) [
        | inr unknown ↦ rw (unknown, perform, set_status) h
        | inl valid ↦ elim (Option-cases (lookup id s.cards)) [
          | inl absent ↦ rw (valid, absent, perform, set_status) h
          | inr (e, found) ↦
              rw (valid, found, perform, set_status)
                (put_card id (reviewed status now remark by e) s
                  (unfold reviewed in Named-lookup (λ d. d.card.id) id e s.cards h.own_card found)
                  h)
        ]
      ]
  perform-IsKept (add_skill e) s h = elim (Option-cases (lookup e.skill.name s.skills)) [
    | inl free ↦ rw (free, perform, register_skill) (put_skill e.skill.name e s refl h)
    | inr (old, taken) ↦ rw (taken, perform, register_skill) h
  ]
  perform-IsKept (update_skill e) s h = put_skill e.skill.name e s refl h
  perform-IsKept (drop_skill name) s h = elim (Option-cases (lookup name s.skills)) [
    | inl absent ↦ rw (absent, perform, unregister_skill) h
    | inr (e, found) ↦ rw (found, perform, unregister_skill) (take_skill name s h)
  ]
  perform-IsKept (add_plugin e) s h = elim (Option-cases (lookup (address e) s.plugins)) [
    | inl free ↦ rw (free, perform, register_plugin) (put_plugin (address e) e s refl h)
    | inr (old, taken) ↦ rw (taken, perform, register_plugin) h
  ]
  perform-IsKept (review name version approved remark by) s h =
      elim (Option-cases (lookup (address_of name version) s.plugins)) [
        | inl absent ↦ rw (absent, perform, review_plugin) h
        | inr (e, found) ↦
            rw (found, perform, review_plugin)
              (put_plugin (address_of name version) (reviewed_plugin approved remark by e) s
                (unfold reviewed_plugin in
                  Named-lookup address (address_of name version) e s.plugins h.own_plugin found)
                h)
      ]
  perform-IsKept (drop_plugin name version) s h =
      elim (Option-cases (lookup (address_of name version) s.plugins)) [
        | inl absent ↦ rw (absent, perform, remove_plugin) h
        | inr (e, found) ↦
            rw (found, perform, remove_plugin) (take_plugin (address_of name version) s h)
      ]

  pub perform_all-IsKept :
      {path : Bool} (cs : List Call) (s : RegistryStore J)
      → IsKept path s
      → IsKept path (perform_all codec cs s).1
  unfolding perform_all
  perform_all-IsKept [] s h = h
  perform_all-IsKept (c ∷ cs) s h =
      perform_all-IsKept cs (perform codec c s).1 (perform-IsKept c s h)

  -- What is read back from what is written.
  pub record IsFaithful : Type 0 where
    pub card : (e : RegistryEntry) → codec.load_card (codec.dump_card e) ≡ some e
    pub skill : (e : SkillEntry) → codec.load_skill (codec.dump_skill e) ≡ some e
    pub plugin : (e : PluginEntry) → codec.load_plugin (codec.dump_plugin e) ≡ some e

  reopen :
      (s : RegistryStore J) → IsFaithful → IsKept true s → open_store codec true s.file ≡ return s
  unfolding open_store
  reopen s f k = elim (k.saved refl) [
    | inl new ↦ unfold open_store in rw (new.0, open_store) (ground arith)
    | inr old ↦
        rw
          (
            old,
            load_entries-dump (λ e. e.card.id) codec.dump_card codec.load_card f.card s.cards []
                k.own_card k.one_card,
            load_entries-dump (λ e. e.skill.name) codec.dump_skill codec.load_skill f.skill s.skills
                [] k.own_skill k.one_skill,
            load_entries-dump address codec.dump_plugin codec.load_plugin f.plugin s.plugins []
                k.own_plugin k.one_plugin,
            open_store,
          )
          (ground arith)
  ]

  opened-IsKept : (s : RegistryStore J) → open_store codec true none ≡ return s → IsKept true s
  unfolding open_store
  opened-IsKept s opened = subst (IsKept true) (ground arith) (record {
    at_path = refl;
    saved = λ _. inl (refl, refl, refl, refl);
    one_card = tt;
    one_skill = tt;
    one_plugin = tt;
    own_card = tt;
    own_skill = tt;
    own_plugin = tt;
  })

  -- A registry is opened on a path where there is no file. Whatever calls are made on it then,
  -- opening that path again returns a registry with the same cards, skills and plugins in the same
  -- order, if the JSON form of an entry validates to the entry.
  pub perform_all-reopen :
      (cs : List Call) (s : RegistryStore J)
      → IsFaithful
      → open_store codec true none ≡ return s
      → open_store codec true (perform_all codec cs s).1.file ≡ return (perform_all codec cs s).1
  perform_all-reopen cs s f opened =
      reopen (perform_all codec cs s).1 f (perform_all-IsKept cs s (opened-IsKept s opened))
