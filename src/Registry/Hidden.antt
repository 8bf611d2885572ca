-- ===== src/Registry/Hidden.antt =====
-- registry/store.py: what the default search shows of a card that was reviewed.
use geo_nexus_sdk.Base.{
  Named, String, Bool, false, Option, none, some, List, [], ◌∷◌, Dict, ◌≡◌, inl, inr, refl, sym,
  subst, arith, lookup, keys, values, contains, keep, All, Bool-cases, Option-cases, ◌==◌, eq_iff,
  Distinct, lookup-insert_self, lookup-none, ◌&&◌,
}
use geo_nexus_sdk.Geocard.Model.{GeoCard}
use geo_nexus_sdk.Geocard.Contract.{ContractRequest, ContractResult}
use geo_nexus_sdk.Registry.Models.{
  RegistryEntry, review_statuses, status_approved, status_rejected, address_of, address,
}
use geo_nexus_sdk.Registry.Store.{Codec, RegistryStore, save, set_cards}
use geo_nexus_sdk.Registry.Cards.{
  SearchRequest, search, search_in, passes_filters, contract_of, gated, reject, set_status,
  reviewed,
}
use geo_nexus_sdk.Registry.Calls.{
  Call, add_card, update_card, drop_card, set_card_status, add_skill, update_skill, drop_skill,
  add_plugin, review, drop_plugin, perform, perform_all, answer_state, card,
}
use geo_nexus_sdk.Registry.Promise.{Catalogue, promise, view, IsKeyed}
use geo_nexus_sdk.Registry.Catalogue.{perform-Refines}
use geo_nexus_sdk.Registry.Reload.{IsKept, perform-IsKept, perform_all-IsKept}

-- A call that could make a card discoverable: to register it, or to approve it.
abbrev pub publishes : String → Call → Bool
publishes id (add_card e) = e.card.id == id
publishes id (update_card e) = e.card.id == id
publishes id (set_card_status now j status remark by) = (j == id) && (status == status_approved)
publishes id (drop_card j) = false
publishes id (add_skill e) = false
publishes id (update_skill e) = false
publishes id (drop_skill name) = false
publishes id (add_plugin e) = false
publishes id (review name version approved remark by) = false
publishes id (drop_plugin name version) = false

abbrev Withheld : Option RegistryEntry → Type 0
Withheld none = Unit
Withheld (some e) = (e.status == status_approved) ≡ false

promise-Withheld :
    (id : String) (c : Call) (m : Catalogue)
    → Withheld (m.cards id)
    → publishes id c ≡ false
    → Withheld ((promise c m).1.cards id)
unfolding reviewed
promise-Withheld id (add_card e) m h p = elim (Option-cases (m.cards e.card.id)) [
  | inl free ↦ rw (free, p) h
  | inr (old, taken) ↦ rw taken h
]
promise-Withheld id (update_card e) m h p = rw p h
promise-Withheld id (drop_card j) m h p = elim (Option-cases (m.cards j)) [
  | inl absent ↦ rw absent h
  | inr (e, found) ↦ elim (Bool-cases (j == id)) [
    | inl same ↦ rw (found, same) tt
    | inr other ↦ rw (found, other) h
  ]
]
promise-Withheld id (set_card_status now j status remark by) m h p =
    elim (Bool-cases (contains status review_statuses)) [
      | inr unknown ↦ rw unknown h
      | inl valid ↦ elim (Option-cases (m.cards j)) [
        | inl absent ↦ rw (valid, absent) h
        | inr (e, found) ↦ elim (Bool-cases (j == id)) [
          | inl same ↦ rw (valid, found, same) (ground arith)
          | inr other ↦ rw (valid, found, other) h
        ]
      ]
    ]
promise-Withheld id (add_skill e) m h p = elim (Option-cases (m.skills e.skill.name)) [
  | inl free ↦ rw free h
  | inr (old, taken) ↦ rw taken h
]
promise-Withheld id (update_skill e) m h p = h
promise-Withheld id (drop_skill name) m h p = elim (Option-cases (m.skills name)) [
  | inl absent ↦ rw absent h
  | inr (e, found) ↦ rw found h
]
promise-Withheld id (add_plugin e) m h p = elim (Option-cases (m.plugins (address e))) [
  | inl free ↦ rw free h
  | inr (old, taken) ↦ rw taken h
]
promise-Withheld id (review name version approved remark by) m h p =
    elim (Option-cases (m.plugins (address_of name version))) [
      | inl absent ↦ rw absent h
      | inr (e, found) ↦ rw found h
    ]
promise-Withheld id (drop_plugin name version) m h p =
    elim (Option-cases (m.plugins (address_of name version))) [
      | inl absent ↦ rw absent h
      | inr (e, found) ↦ rw found h
    ]

abbrev Unlike : String → RegistryEntry → Type 0
Unlike id e = (e.card.id == id) ≡ false

-- The approved entries, where the entry under the id is withheld.
approved-Unlike :
    (id : String) (d : Dict RegistryEntry)
    → Distinct (keys d)
    → Named (λ e. e.card.id) d
    → Withheld (lookup id d)
    → All (Unlike id) (keep (λ e. e.status == status_approved) (values d))
unfolding lookup
approved-Unlike id [] one own h = tt
approved-Unlike id ((j, e) ∷ d) one own h = elim (Bool-cases (j == id)) [
  | inl same ↦
      let hidden : (e.status == status_approved) ≡ false = ground arith in
      let gone : lookup id d ≡ none = lookup-none id d (ground (arith, eq_iff j id)) in
      rw hidden (approved-Unlike id d one.1 own.1 (rw gone tt))
  | inr other ↦
      let rest = approved-Unlike id d one.1 own.1 (ground arith) in
      elim (Bool-cases (e.status == status_approved)) [
        | inl shown ↦ rw shown (rw own.0 other, rest)
        | inr hidden ↦ rw hidden rest
      ]
]

module _ (check : GeoCard → ContractRequest → ContractResult) where
  -- The loop returns only entries that it is given.
  search_in-Unlike :
      (id : String) (q : SearchRequest) (es : List RegistryEntry)
      → All (Unlike id) es
      → All (λ r. Unlike id r.entry) (search_in check q es)
  unfolding search_in
  search_in-Unlike id q [] h = tt
  search_in-Unlike id q (e ∷ es) h = elim (Bool-cases (passes_filters q e.card)) [
    | inr dropped ↦ rw (dropped, search_in) (search_in-Unlike id q es h.1)
    | inl passed ↦ elim (Bool-cases (gated check q.contract_gate (contract_of check q e.card))) [
      | inl satisfied ↦ rw (passed, satisfied, search_in) (h.0, search_in-Unlike id q es h.1)
      | inr unsatisfied ↦ rw (passed, unsatisfied, search_in) (search_in-Unlike id q es h.1)
    ]
  ]

  module _ {J : Type 0} (codec : Codec J) where
    keyed : {path : Bool} {s : RegistryStore J} → IsKept codec path s → IsKeyed s
    keyed k = record { one_card = k.one_card; one_skill = k.one_skill; one_plugin = k.one_plugin }

    pub perform_all-Withheld :
        {path : Bool} (id : String) (cs : List Call) (s : RegistryStore J)
        → IsKept codec path s
        → Withheld (lookup id s.cards)
        → All (λ c. publishes id c ≡ false) cs
        → Withheld (lookup id (perform_all codec cs s).1.cards)
    unfolding perform_all
    perform_all-Withheld id [] s k h p = h
    perform_all-Withheld id (c ∷ cs) s k h p =
        let refined = perform-Refines codec c s (keyed k) in
        perform_all-Withheld id cs (perform codec c s).1 (perform-IsKept codec c s k)
          (subst (λ m. Withheld (m.cards id)) (sym refined.1)
            (promise-Withheld id c (view s) h p.0))
          p.1

    -- The store after the reviewer has turned the card down.
    rejected-Withheld :
        {path : Bool} (now id : String) (remark by : Option String) (s : RegistryStore J)
        → IsKept codec path s
        → Withheld (lookup id (reject codec now id remark by s).1.cards)
          × IsKept codec path (reject codec now id remark by s).1
    unfolding reject set_status reviewed perform set_cards save
    rejected-Withheld now id remark by s k = (
      elim (Option-cases (lookup id s.cards)) [
        | inl absent ↦ rw (absent, reject, set_status) (rw absent tt)
        | inr (e, found) ↦ elim (Bool-cases s.persistent) [
          | inl path ↦ rw (found, path, lookup-insert_self, reject, set_status) refl
          | inr path ↦ rw (found, path, lookup-insert_self, reject, set_status) refl
        ]
      ],
      subst (IsKept codec _)
          (answer_state card (set_status codec now id status_rejected remark by s))
          (perform-IsKept codec (set_card_status now id status_rejected remark by) s k),
    )

    -- A card is rejected, or there is none of that id, in a registry that keeps each entry under
    -- its own key, once, and its file up to date. Whatever calls follow that neither register a
    -- card of that id nor approve it, no search for approved cards returns it, whatever else is
    -- searched for and whatever the contract check says.
    pub search-rejected :
        {path : Bool} (now id : String) (remark by : Option String) (s : RegistryStore J)
        (cs : List Call) (q : SearchRequest)
        → IsKept codec path s
        → All (λ c. publishes id c ≡ false) cs
        → q.status ≡ some status_approved
        → All
            (λ r. (r.entry.card.id == id) ≡ false)
            (search check q (perform_all codec cs (reject codec now id remark by s).1).1)
    unfolding search
    search-rejected now id remark by s cs q k quiet default =
        let (withheld, kept) = rejected-Withheld now id remark by s k in
        let later = perform_all codec cs (reject codec now id remark by s).1 in
        let kept' = perform_all-IsKept codec cs (reject codec now id remark by s).1 kept in
        rw default (
          search_in-Unlike id q _ (
            approved-Unlike id later.1.cards kept'.one_card kept'.own_card
              (perform_all-Withheld id cs (reject codec now id remark by s).1 kept withheld quiet)))
