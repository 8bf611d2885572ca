-- ===== src/Registry/Cards.antt =====
-- registry/store.py: the methods on cards. `now` is the time of the call as a text; `check` is the
-- contract check of geocard/validator.py.
use Prim.Native.String.{◌++◌ as text_append}
use geo_nexus_sdk.Base.{
  String, Bool, true, false, not, ◌&&◌, ◌||◌, Option, none, some, List, [], ◌∷◌, ◌++◌, lookup,
  insert, remove, has, values, contains, every, ℕ, length, keep, if◌then◌else◌, is_some, or_text,
  given, return, raise, for_each, ◌==◌,
}
use geo_nexus_sdk.Geocard.Model.{GeoCard, ProvenanceSection, capability_names}
use geo_nexus_sdk.Geocard.Contract.{ContractRequest, ContractResult}
use geo_nexus_sdk.Registry.Models.{
  status_approved, status_rejected, review_statuses, RegistryEntry, RegistrySearchResult,
}
use geo_nexus_sdk.Registry.Store.{
  Codec, RegistryStore, Method, set_cards, entry_conflict, entry_not_found, invalid_status,
}

-- The text that a review appends to the lineage of the card.
unfoldable pub review_line : String → String → Option String → Option String → String
review_line status now note by =
    let head = text_append "[" (
      text_append status
        (text_append "] by " (text_append (or_text by "unknown") (text_append " at " now)))) in
    if given note then text_append head (text_append " — " (or_text note "")) else head

unfoldable pub with_lineage : String → Option ProvenanceSection → Option ProvenanceSection
with_lineage line none = none
with_lineage line (some p) =
    some (record p { lineage = some (text_append (or_text p.lineage "") (text_append " | " line)) })

-- The entry after a review.
unfoldable pub reviewed :
    String → String → Option String → Option String → RegistryEntry → RegistryEntry
unfolding review_line with_lineage
reviewed status now note by e = record e {
  card = record e.card {
    provenance = with_lineage (review_line status now note by) e.card.provenance;
  };
  status = status;
  review_note = note;
  review_history =
      e.review_history
      ++ (record {
        action = status;
        by = or_text by "unknown";
        at_time = now;
        note = or_text note "";
      })
        ∷ [];
}

-- The arguments of a search; those of `contract` go to the check.
pub record SearchRequest : Type 0 where
  pub capability : Option String
  pub type : Option String
  pub tags : List String
  pub contract : ContractRequest
  pub contract_gate : Bool
  pub status : Option String

-- A filter that is not given passes everything.
abbrev pub when_given {ℓ} : {A : Type ℓ} → (A → Bool) → Option A → Bool
when_given p none = true
when_given p (some a) = p a

unfoldable pub has_constraint : ContractRequest → Bool
has_constraint r =
    is_some r.bbox
    || (is_some r.crs
        || (is_some r.start
            || (is_some r.end || (is_some r.required_bands || is_some r.required_resolution))))

-- The tests of the loop that come before the contract.
unfoldable pub passes_filters : SearchRequest → GeoCard → Bool
unfolding capability_names
passes_filters q card =
    when_given (λ c. contains c (capability_names card)) q.capability
    && (when_given (λ t. card.type == t) q.type && every (λ t. contains t card.tags) q.tags)

module _ (check : GeoCard → ContractRequest → ContractResult) where
  -- `contract`, where there is a constraint.
  unfoldable pub contract_of : SearchRequest → GeoCard → Option ContractResult
  unfolding has_constraint
  contract_of q card = if has_constraint q.contract then some (check card q.contract) else none

  abbrev pub gated : Bool → Option ContractResult → Bool
  gated gate none = true
  gated gate (some r) = not (gate && not r.satisfied)

  unfoldable pub search_in : SearchRequest → List RegistryEntry → List RegistrySearchResult
  unfolding passes_filters contract_of
  search_in q [] = []
  search_in q (e ∷ es) =
      let rest = search_in q es in
      if passes_filters q e.card
      then if gated q.contract_gate (contract_of q e.card)
        then (record { entry = e; contract = contract_of q e.card }) ∷ rest
        else rest
      else rest

module _ {J : Type 0} where
  unfoldable pub get : String → RegistryStore J → Option RegistryEntry
  get id s = lookup id s.cards

  unfoldable pub list_entries : Option String → RegistryStore J → List RegistryEntry
  list_entries none s = values s.cards
  list_entries (some status) s = keep (λ e. e.status == status) (values s.cards)

  unfoldable pub count : RegistryStore J → ℕ
  count s = length s.cards

  unfoldable pub search :
      (GeoCard → ContractRequest → ContractResult)
      → SearchRequest
      → RegistryStore J
      → List RegistrySearchResult
  unfolding search_in
  search check q s = search_in check q (elim q.status [
    | none ↦ values s.cards
    | some status ↦ keep (λ e. e.status == status) (values s.cards)
  ])

module _ {J : Type 0} (codec : Codec J) where
  unfoldable pub register : RegistryEntry → Method codec Unit
  register entry s = elim (has entry.card.id s.cards) [
    | true ↦ (raise (entry_conflict entry.card.id), s)
    | false ↦ (return tt, set_cards codec (insert entry.card.id entry s.cards) s)
  ]

  unfoldable pub register_or_update : RegistryEntry → Method codec Bool
  register_or_update entry s = (
    return (not (has entry.card.id s.cards)),
    set_cards codec (insert entry.card.id entry s.cards) s,
  )

  unfoldable pub unregister : String → Method codec RegistryEntry
  unregister id s = elim (lookup id s.cards) [
    | none ↦ (raise (entry_not_found id), s)
    | some entry ↦ (return entry, set_cards codec (remove id s.cards) s)
  ]

  unfoldable pub set_status :
      String → String → String → Option String → Option String → Method codec RegistryEntry
  unfolding reviewed
  set_status now id status note by s = elim (contains status review_statuses) [
    | false ↦ (raise (invalid_status status), s)
    | true ↦ elim (lookup id s.cards) [
      | none ↦ (raise (entry_not_found id), s)
      | some entry ↦
          let updated = reviewed status now note by entry in
          (return updated, set_cards codec (insert id updated s.cards) s)
    ]
  ]

  unfoldable pub approve :
      String → String → Option String → Option String → Method codec RegistryEntry
  unfolding set_status
  approve now id note by = set_status now id status_approved note by

  unfoldable pub reject :
      String → String → Option String → Option String → Method codec RegistryEntry
  unfolding set_status
  reject now id note by = set_status now id status_rejected note by

  unfoldable pub register_many : List RegistryEntry → Method codec Unit
  unfolding register for_each
  register_many = for_each (register)
