-- ===== src/Geocard/Visibility/Resolve.antt =====
-- geocard/visibility.py: the loops over the components of a card, and what each leaves.
use geo_nexus_sdk.Base.{
  ◌≡◌, refl, sym, ap, subst, ◌∙◌, true, false, Bool, Option, none, some, List, [], ◌∷◌, ◌++◌,
  String, Dict, lookup, values, insert, In, inl, inr, arith, Bool-cases, Option-cases, ◌==◌, eq_iff,
  lookup-insert, lookup-insert_self,
}
use mathlib.Core.List.{append_assoc, append-nil}
use geo_nexus_sdk.Geocard.Visibility.{
  Level, ComponentRef, Card, card_visibility, counted, unresolved, resolve,
}

abbrev pub level_of : Option Card → Option Level
level_of none = none
level_of (some card) = some (card_visibility card)

abbrev pub any_left : List String → Bool
any_left [] = false
any_left (id ∷ ids) = true

pub any_left-append : (ids : List String) (id : String) → any_left (ids ++ id ∷ []) ≡ true
any_left-append [] id = refl
any_left-append (j ∷ ids) id = refl

-- The value under a key is one of the values.
pub lookup-In : (k : String) (l : Level) (d : Dict Level) → lookup k d ≡ some l → In l (values d)
unfolding lookup
lookup-In k l [] e = cc
lookup-In k l ((j, v) ∷ d) e = elim (Bool-cases (j == k)) [
  | inl same ↦ inl (ground arith)
  | inr other ↦ inr (lookup-In k l d (ground arith))
]

module _ (find : String → Option Card) (include_optional gating_only : Bool) (c : ComponentRef)
    (cs : List ComponentRef) (levels : Dict Level) (missing : List String) where
  pub resolve-skipped :
      counted include_optional gating_only c ≡ false
      → resolve find include_optional gating_only (c ∷ cs) levels missing
        ≡ resolve find include_optional gating_only cs levels missing
  unfolding resolve
  resolve-skipped skip = rw (skip, resolve) refl

  pub resolve-lost :
      counted include_optional gating_only c ≡ true
      → find c.id ≡ none
      → resolve find include_optional gating_only (c ∷ cs) levels missing
        ≡ resolve find include_optional gating_only cs levels (missing ++ c.id ∷ [])
  unfolding resolve
  resolve-lost counts lost = rw (counts, lost, resolve) refl

  pub resolve-found :
      (card : Card)
      → counted include_optional gating_only c ≡ true
      → find c.id ≡ some card
      → resolve find include_optional gating_only (c ∷ cs) levels missing
        ≡ resolve find include_optional gating_only cs
            (insert c.id (card_visibility card) levels)
            missing
  unfolding resolve
  resolve-found card counts found = rw (counts, found, resolve) refl

module _ (find : String → Option Card) (include_optional gating_only : Bool) where
  -- What was resolved under an id stays, since the id resolves to the same card again.
  pub resolve-kept :
      (cs : List ComponentRef) (levels : Dict Level) (missing : List String) (id : String)
      (card : Card)
      → find id ≡ some card
      → lookup id levels ≡ some (card_visibility card)
      → lookup id (resolve find include_optional gating_only cs levels missing).0
        ≡ some (card_visibility card)
  unfolding resolve
  resolve-kept [] levels missing id card found there = there
  resolve-kept (c ∷ cs) levels missing id card found there =
      elim (Bool-cases (counted include_optional gating_only c)) [
        | inr skip ↦
            rw (resolve-skipped find include_optional gating_only c cs levels missing skip)
              (resolve-kept cs levels missing id card found there)
        | inl counts ↦ elim (Option-cases (find c.id)) [
          | inl lost ↦
              rw (resolve-lost find include_optional gating_only c cs levels missing counts lost)
                (resolve-kept cs levels (missing ++ c.id ∷ []) id card found there)
          | inr (other, seen) ↦
              rw
                (resolve-found find include_optional gating_only c cs levels missing other counts
                  seen)
                (resolve-kept cs (insert c.id (card_visibility other) levels) missing id card found
                  (elim (Bool-cases (c.id == id)) [
                    | inl same ↦
                        let here : some other ≡ some card =
                          sym seen ∙ (ap find ((eq_iff c.id id).0 same) ∙ found) in
                        lookup-insert c.id id (card_visibility other) levels
                        ∙ rw same (ap level_of here)
                    | inr apart ↦
                        lookup-insert c.id id (card_visibility other) levels ∙ rw apart there
                  ]))
        ]
      ]

  -- A component that counts and resolves is entered with its level.
  pub resolve-In :
      (cs : List ComponentRef) (levels : Dict Level) (missing : List String) (c : ComponentRef)
      (card : Card)
      → In c cs
      → counted include_optional gating_only c ≡ true
      → find c.id ≡ some card
      → lookup c.id (resolve find include_optional gating_only cs levels missing).0
        ≡ some (card_visibility card)
  resolve-In [] levels missing c card m counts found = absurd m
  resolve-In (b ∷ cs) levels missing c card (inl same) counts found =
      subst
        (λ d.
          lookup d.id (resolve find include_optional gating_only (b ∷ cs) levels missing).0
          ≡ some (card_visibility card))
        same
        (rw
          (resolve-found find include_optional gating_only b cs levels missing card
            (ap (counted include_optional gating_only) same ∙ counts)
            (ap (λ (d : ComponentRef). find d.id) same ∙ found))
          (resolve-kept cs (insert b.id (card_visibility card) levels) missing b.id card
            (ap (λ (d : ComponentRef). find d.id) same ∙ found)
            (lookup-insert_self b.id (card_visibility card) levels)))
  resolve-In (b ∷ cs) levels missing c card (inr m) counts found =
      elim (Bool-cases (counted include_optional gating_only b)) [
        | inr skip ↦
            rw (resolve-skipped find include_optional gating_only b cs levels missing skip)
              (resolve-In cs levels missing c card m counts found)
        | inl counts_b ↦ elim (Option-cases (find b.id)) [
          | inl lost ↦
              rw (resolve-lost find include_optional gating_only b cs levels missing counts_b lost)
                (resolve-In cs levels (missing ++ b.id ∷ []) c card m counts found)
          | inr (other, seen) ↦
              rw
                (resolve-found find include_optional gating_only b cs levels missing other counts_b
                  seen)
                (resolve-In cs (insert b.id (card_visibility other) levels) missing c card m counts
                  found)
        ]
      ]

  -- What is missing stays missing.
  pub resolve-any_left :
      (cs : List ComponentRef) (levels : Dict Level) (missing : List String)
      → any_left missing ≡ true
      → any_left (resolve find include_optional gating_only cs levels missing).1 ≡ true
  unfolding resolve
  resolve-any_left [] levels missing left = left
  resolve-any_left (b ∷ cs) levels missing left =
      elim (Bool-cases (counted include_optional gating_only b)) [
        | inr skip ↦
            rw (resolve-skipped find include_optional gating_only b cs levels missing skip)
              (resolve-any_left cs levels missing left)
        | inl counts ↦ elim (Option-cases (find b.id)) [
          | inl lost ↦
              rw (resolve-lost find include_optional gating_only b cs levels missing counts lost)
                (resolve-any_left cs levels (missing ++ b.id ∷ []) (any_left-append missing b.id))
          | inr (other, seen) ↦
              rw
                (resolve-found find include_optional gating_only b cs levels missing other counts
                  seen)
                (resolve-any_left cs (insert b.id (card_visibility other) levels) missing left)
        ]
      ]

  -- A component that counts and does not resolve leaves something missing.
  pub resolve-gone :
      (cs : List ComponentRef) (levels : Dict Level) (missing : List String) (c : ComponentRef)
      → In c cs
      → counted include_optional gating_only c ≡ true
      → find c.id ≡ none
      → any_left (resolve find include_optional gating_only cs levels missing).1 ≡ true
  resolve-gone [] levels missing c m counts gone = absurd m
  resolve-gone (b ∷ cs) levels missing c (inl same) counts gone =
      rw
        (resolve-lost find include_optional gating_only b cs levels missing
          (ap (counted include_optional gating_only) same ∙ counts)
          (ap (λ (d : ComponentRef). find d.id) same ∙ gone))
        (resolve-any_left cs levels (missing ++ b.id ∷ []) (any_left-append missing b.id))
  resolve-gone (b ∷ cs) levels missing c (inr m) counts gone =
      elim (Bool-cases (counted include_optional gating_only b)) [
        | inr skip ↦
            rw (resolve-skipped find include_optional gating_only b cs levels missing skip)
              (resolve-gone cs levels missing c m counts gone)
        | inl counts_b ↦ elim (Option-cases (find b.id)) [
          | inl lost ↦
              rw (resolve-lost find include_optional gating_only b cs levels missing counts_b lost)
                (resolve-gone cs levels (missing ++ b.id ∷ []) c m counts gone)
          | inr (other, seen) ↦
              rw
                (resolve-found find include_optional gating_only b cs levels missing other counts_b
                  seen)
                (resolve-gone cs (insert b.id (card_visibility other) levels) missing c m counts
                  gone)
        ]
      ]

module _ (find : String → Option Card) (gating_only : Bool) where
  pub unresolved-skipped :
      (c : ComponentRef) (cs : List ComponentRef)
      → counted false gating_only c ≡ false
      → unresolved find gating_only (c ∷ cs) ≡ unresolved find gating_only cs
  unfolding unresolved
  unresolved-skipped c cs skip = rw (skip, unresolved) refl

  pub unresolved-lost :
      (c : ComponentRef) (cs : List ComponentRef)
      → counted false gating_only c ≡ true
      → find c.id ≡ none
      → unresolved find gating_only (c ∷ cs) ≡ c.id ∷ unresolved find gating_only cs
  unfolding unresolved
  unresolved-lost c cs counts lost = rw (counts, lost, unresolved) refl

  pub unresolved-found :
      (c : ComponentRef) (cs : List ComponentRef) (card : Card)
      → counted false gating_only c ≡ true
      → find c.id ≡ some card
      → unresolved find gating_only (c ∷ cs) ≡ unresolved find gating_only cs
  unfolding unresolved
  unresolved-found c cs card counts found = rw (counts, found, unresolved) refl

  -- The ids that the loop cannot resolve are those that `invisible_components` lists.
  pub resolve-missing :
      (cs : List ComponentRef) (levels : Dict Level) (missing : List String)
      → (resolve find false gating_only cs levels missing).1
        ≡ missing ++ unresolved find gating_only cs
  unfolding resolve unresolved
  resolve-missing [] levels missing = sym (append-nil missing)
  resolve-missing (c ∷ cs) levels missing = elim (Bool-cases (counted false gating_only c)) [
    | inr skip ↦
        rw
          (
            resolve-skipped find false gating_only c cs levels missing skip,
            unresolved-skipped c cs skip,
          )
          (resolve-missing cs levels missing)
    | inl counts ↦ elim (Option-cases (find c.id)) [
      | inl lost ↦
          rw
            (
              resolve-lost find false gating_only c cs levels missing counts lost,
              unresolved-lost c cs counts lost,
            )
            (resolve-missing cs levels (missing ++ c.id ∷ []) ∙ append_assoc missing (c.id ∷ []) _)
      | inr (other, seen) ↦
          rw
            (
              resolve-found find false gating_only c cs levels missing other counts seen,
              unresolved-found c cs other counts seen,
            )
            (resolve-missing cs (insert c.id (card_visibility other) levels) missing)
    ]
  ]
