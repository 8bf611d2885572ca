-- ===== src/Geocard/Visibility/Composed.antt =====
-- geocard/visibility.py, `effective_visibility`: a composition is no way around a component's level.
use geo_nexus_sdk.Base.{
  ◌≡◌, ◌≤◌, refl, ◌∙◌, true, false, Bool, Option, none, some, List, [], ◌∷◌, String, map, Dict,
  lookup, values, In, leb, arith, some_of,
}
use geo_nexus_sdk.Geocard.Visibility.{
  Level, public, secret, level_name, rank, normalize_visibility, compose_normalized,
  compose_visibility, visible, is_visible_to, ComponentRef, Card, card_visibility, counted,
  unresolved, invisible_components, conclude, own_level, effective_visibility,
}
use geo_nexus_sdk.Geocard.Visibility.Texts.{map-normalize-name, strictest-all}
use geo_nexus_sdk.Geocard.Visibility.Resolve.{
  any_left, lookup-In, resolve-In, resolve-gone, resolve-missing,
}

compose_normalized-above :
    (ls : List Level) (l : Level) → In l ls → rank l ≤ rank (compose_normalized ls)
unfolding compose_normalized
compose_normalized-above [] l m = absurd m
compose_normalized-above (k ∷ ls) l m = strictest-all k l ls m

compose_visibility-above :
    (ls : List Level) (l : Level)
    → In l ls
    → rank l ≤ rank (compose_visibility (map (λ k. some (level_name k)) ls))
unfolding compose_visibility
compose_visibility-above ls l m = rw (map-normalize-name ls) (compose_normalized-above ls l m)

-- Either all resolved and no level is stricter than the outcome, or the outcome is secret.
conclude-above :
    (id : String) (levels : Dict Level) (missing : List String) (k : String) (l : Level)
    → lookup k levels ≡ some l
    → rank l ≤ rank (conclude id (levels, missing)).visibility
unfolding conclude
conclude-above id levels (m ∷ ms) k public e = omega arith
conclude-above id levels (m ∷ ms) k _ e = omega arith
conclude-above id levels [] k l e =
    compose_visibility-above (values levels) l (lookup-In k l levels e)

conclude-left :
    (id : String) (out : Dict Level × List String)
    → any_left out.1 ≡ true
    → (visible (conclude id out) ≡ false) × ((conclude id out).visibility ≡ secret)
unfolding conclude visible
conclude-left id (levels, []) left = cc
conclude-left id (levels, m ∷ ms) left = (refl, refl)

-- The start of the loop.
abbrev own_levels : Card → Option String → Dict Level
own_levels card own = (card.id, own_level card own) ∷ []

module _ (card : Card) (find : String → Option Card) (own : Option String)
    (include_optional gating_only : Bool) (cs : List ComponentRef)
    (composed : card.composition ≡ some cs) (c : ComponentRef) (listed : In c cs)
    (counts : counted include_optional gating_only c ≡ true) where
  -- No component that counts is stricter than the card that is composed of it.
  pub effective_visibility-above :
      (found : Card)
      → find c.id ≡ some found
      → rank (card_visibility found)
        ≤ rank (effective_visibility card (some find) own include_optional gating_only).visibility
  unfolding effective_visibility
  effective_visibility-above found e =
      rw (composed, effective_visibility)
        (conclude-above card.id _ _ c.id (card_visibility found) (
          resolve-In find include_optional gating_only cs (own_levels card own) [] c found listed
            counts e))

  -- A listed component that counts and cannot be resolved hides the card that is composed of it:
  -- its level is secret and it is not visible.
  pub effective_visibility-gone :
      find c.id ≡ none
      → (visible (effective_visibility card (some find) own include_optional gating_only) ≡ false)
        × ((effective_visibility card (some find) own include_optional gating_only).visibility
            ≡ secret)
  unfolding effective_visibility
  effective_visibility-gone gone =
      rw (composed, effective_visibility)
        (conclude-left card.id _ (
          resolve-gone find include_optional gating_only cs (own_levels card own) [] c listed counts
            gone))

can_see :
    (need : Level) (less : Level) (granted : List Level)
    → rank less ≤ rank need
    → some_of (λ l. leb (rank need) (rank l)) granted ≡ true
    → some_of (λ l. leb (rank less) (rank l)) granted ≡ true
can_see need less [] le h = cc
can_see need less (l ∷ ls) le h = ground (arith, can_see need less ls)

-- Who can see a composed card can see each component of it that counts and resolves: some level
-- that is granted reaches the level of the component.
pub is_visible_to-component :
    (card : Card) (find : String → Option Card) (own : Option String)
    (include_optional gating_only : Bool) (granted : List (Option String)) (cs : List ComponentRef)
    (c : ComponentRef) (found : Card)
    → card.composition ≡ some cs
    → In c cs
    → counted include_optional gating_only c ≡ true
    → find c.id ≡ some found
    → is_visible_to (effective_visibility card (some find) own include_optional gating_only) granted
      ≡ true
    → some_of (λ l. leb (rank (card_visibility found)) (rank l)) (map normalize_visibility granted)
      ≡ true
unfolding is_visible_to
is_visible_to-component card find own include_optional gating_only granted cs c found composed
      listed counts e seen =
    can_see (effective_visibility card (some find) own include_optional gating_only).visibility
      (card_visibility found) (map normalize_visibility granted)
      (effective_visibility-above card find own include_optional gating_only cs composed c listed
        counts found e)
      seen

conclude-missing :
    (id : String) (out : Dict Level × List String) → (conclude id out).missing ≡ out.1
unfolding conclude
conclude-missing id (levels, []) = refl
conclude-missing id (levels, m ∷ ms) = refl

missing-same :
    (card : Card) (find : String → Option Card) (own : Option String) (gating_only : Bool)
    (composition : Option (List ComponentRef))
    → card.composition ≡ composition
    → (effective_visibility card (some find) own false gating_only).missing
      ≡ invisible_components card find gating_only
unfolding effective_visibility invisible_components unresolved
missing-same card find own gating_only none e = rw (e, effective_visibility) refl
missing-same card find own gating_only (some cs) e =
    rw (e, effective_visibility)
      (conclude-missing card.id _ ∙ resolve-missing find gating_only cs (own_levels card own) [])

-- With optional components left out, the report misses the components that `invisible_components`
-- lists, in the same order.
pub effective_visibility-missing :
    (card : Card) (find : String → Option Card) (own : Option String) (gating_only : Bool)
    → (effective_visibility card (some find) own false gating_only).missing
      ≡ invisible_components card find gating_only
effective_visibility-missing card find own gating_only =
    missing-same card find own gating_only card.composition refl
