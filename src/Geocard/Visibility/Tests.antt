-- ===== src/Geocard/Visibility/Tests.antt =====
-- The theorems about visibility at concrete inputs, and runs of its functions.
use geo_nexus_sdk.Base.{
  same_text, strip_left, strip_right, insert, ◌≡◌, ◌≤◌, refl, true, false, Option, none, some, List,
  [], ◌∷◌, String, map, In, inl, some_of, leb, ◌==◌, if◌then◌else◌,
}
use geo_nexus_sdk.Geocard.Visibility.{
  Level, public, restricted, sensitive, secret, rank, normalize_visibility, find_word,
  compose_visibility, ComponentRef, Card, card_visibility, counted, visible, is_visible_to,
  effective_visibility, invisible_components, compose_normalized, strictest, resolve, conclude,
}
use geo_nexus_sdk.Geocard.Visibility.Texts.{compose_visibility_lem}
use geo_nexus_sdk.Geocard.Visibility.Composed.{
  effective_visibility-above, effective_visibility-gone, is_visible_to-component,
  effective_visibility-missing,
}

-- White space and case do not matter, and a word that is not known is not public.
normalized :
    (normalize_visibility (some " Public ") ≡ public)
    × (normalize_visibility (some "TOP-secret") ≡ secret)
    × (normalize_visibility (some "open") ≡ restricted)
unfolding normalize_visibility find_word same_text strip_left strip_right insert
normalized = (refl, refl, refl)

compose_visibility_lem_example :
    In
      (compose_visibility (some "public" ∷ some "secret" ∷ []))
      (map normalize_visibility (some "public" ∷ some "secret" ∷ []))
    × ((w : Level)
        → In w (map normalize_visibility (some "public" ∷ some "secret" ∷ []))
        → rank w ≤ rank (compose_visibility (some "public" ∷ some "secret" ∷ [])))
compose_visibility_lem_example = compose_visibility_lem (some "public") (some "secret" ∷ [])

-- A public case that is made of a sensitive data set and of a skill.
abbrev survey_data : ComponentRef
survey_data = record { id = "survey"; role = "data"; required = true }

abbrev survey_card : Card
survey_card = record { id = "survey"; sensitivity = some "sensitive"; composition = none }

abbrev parts : List ComponentRef
parts = survey_data ∷ record { id = "buffer"; role = "skill"; required = true } ∷ []

abbrev case : Card
case = record { id = "case"; sensitivity = some "public"; composition = some parts }

abbrev catalogue : String → Option Card
catalogue id = if id == "survey" then some survey_card else none

survey_counts : counted false true survey_data ≡ true
unfolding counted
survey_counts = refl

case-level : (effective_visibility case (some catalogue) none false true).visibility ≡ sensitive
unfolding effective_visibility resolve conclude counted card_visibility compose_visibility
    compose_normalized strictest normalize_visibility find_word same_text strip_left strip_right
    insert
case-level = refl

effective_visibility-above_example :
    rank (card_visibility survey_card)
    ≤ rank (effective_visibility case (some catalogue) none false true).visibility
effective_visibility-above_example =
    effective_visibility-above case catalogue none false true parts refl survey_data (inl refl)
      survey_counts survey_card refl

effective_visibility-gone_example :
    (visible (effective_visibility case (some (λ _. none)) none false true) ≡ false)
    × ((effective_visibility case (some (λ _. none)) none false true).visibility ≡ secret)
effective_visibility-gone_example =
    effective_visibility-gone case (λ _. none) none false true parts refl survey_data (inl refl)
      survey_counts refl

-- The level that is granted reaches the whole case.
case_seen :
    is_visible_to (effective_visibility case (some catalogue) none false true) (some "secret" ∷ [])
    ≡ true
unfolding is_visible_to effective_visibility resolve conclude counted card_visibility
    compose_visibility compose_normalized strictest normalize_visibility find_word same_text
    strip_left strip_right insert
case_seen = refl

is_visible_to-component_example :
    some_of
      (λ l. leb (rank (card_visibility survey_card)) (rank l))
      (map normalize_visibility (some "secret" ∷ []))
    ≡ true
is_visible_to-component_example =
    is_visible_to-component case catalogue none false true (some "secret" ∷ []) parts survey_data
      survey_card refl (inl refl) survey_counts refl case_seen

effective_visibility-missing_example :
    (effective_visibility case (some catalogue) none false true).missing
    ≡ invisible_components case catalogue true
effective_visibility-missing_example = effective_visibility-missing case catalogue none true
