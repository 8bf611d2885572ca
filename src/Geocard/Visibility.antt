-- ===== src/Geocard/Visibility.antt =====
-- geocard/visibility.py: how visible a card is that is composed of others.
pub mod Texts
pub mod Resolve
pub mod Composed
mod Tests
use geo_nexus_sdk.Base.{
  ℕ, ◌+◌, ◌≡◌, String, Bool, true, false, not, ◌&&◌, ◌||◌, Option, none, some, List, [], ◌∷◌, ◌++◌,
  map, Dict, lookup, insert, values, contains, some_of, codes, strip_left, strip_right, lower,
  same_text, ltb, leb, eqb, if◌then◌else◌, or_else,
}

-- VISIBILITY_LEVELS, from the most public to the strictest.
pub data Level : Type 0 where
  public restricted sensitive secret : Level

abbrev pub level_name : Level → String
level_name public = "public"
level_name restricted = "restricted"
level_name sensitive = "sensitive"
level_name secret = "secret"

-- VISIBILITY_RANK
abbrev pub rank : Level → ℕ
rank public = 0
rank restricted = 1
rank sensitive = 2
rank secret = 3

abbrev pub default_visibility : Level
default_visibility = restricted

abbrev pub gating_roles : List String
gating_roles = "data" ∷ "model" ∷ "knowledge" ∷ "workflow" ∷ []

abbrev pub level_words : List (String × Level)
level_words =
    ("public", public)
    ∷ ("restricted", restricted)
    ∷ ("sensitive", sensitive)
    ∷ ("secret", secret)
    ∷ []

-- _ALIASES
abbrev pub aliases : List (String × Level)
aliases =
    ("", default_visibility)
    ∷ ("none", default_visibility)
    ∷ ("unknown", default_visibility)
    ∷ ("internal", restricted)
    ∷ ("private", restricted)
    ∷ ("confidential", sensitive)
    ∷ ("top-secret", secret)
    ∷ ("top_secret", secret)
    ∷ []

unfoldable pub find_word : List ℕ → List (String × Level) → Option Level
unfolding same_text
find_word text [] = none
find_word text ((w, l) ∷ ws) = if same_text (codes w) text then some l else find_word text ws

unfoldable pub normalize_visibility : Option String → Level
unfolding find_word strip_left strip_right
normalize_visibility none = default_visibility
normalize_visibility (some value) =
    let text = map lower (strip_right (strip_left (codes value))) in
    elim (or_else (find_word text level_words) (find_word text aliases)) [
      | some l ↦ l
      | none ↦ default_visibility
    ]

-- `max(levels, key=rank)`: the first of the strictest.
unfoldable pub strictest : Level → List Level → Level
strictest l [] = l
strictest l (k ∷ ks) = strictest (if ltb (rank l) (rank k) then k else l) ks

unfoldable pub compose_normalized : List Level → Level
unfolding strictest
compose_normalized [] = default_visibility
compose_normalized (l ∷ ls) = strictest l ls

unfoldable pub compose_visibility : List (Option String) → Level
unfolding compose_normalized normalize_visibility
compose_visibility levels = compose_normalized (map normalize_visibility levels)

pub record VisibilityReport : Type 0 where
  pub visibility : Level
  pub card : String
  pub levels : Dict Level
  pub missing : List String

unfoldable pub visible : VisibilityReport → Bool
visible r = elim r.missing [ [] ↦ true | id ∷ ids ↦ false ]

-- `any(VISIBILITY_RANK[level] >= need for level in allowed)`
unfoldable pub is_visible_to : VisibilityReport → List (Option String) → Bool
unfolding normalize_visibility
is_visible_to r granted =
    some_of (λ l. leb (rank r.visibility) (rank l)) (map normalize_visibility granted)

-- What this module reads of a card and of its components.
pub record ComponentRef : Type 0 where
  pub id : String
  pub role : String
  pub required : Bool

pub record Card : Type 0 where
  pub id : String
  pub sensitivity : Option String
  pub composition : Option (List ComponentRef)

-- `_card_visibility`; a card without a compliance section has no sensitivity.
unfoldable pub card_visibility : Card → Level
unfolding normalize_visibility
card_visibility card = normalize_visibility card.sensitivity

abbrev pub components : Card → List ComponentRef
components card = elim card.composition [ none ↦ [] | some cs ↦ cs ]

-- The two `continue`s of the loops.
unfoldable pub counted : Bool → Bool → ComponentRef → Bool
counted include_optional gating_only c =
    (c.required || include_optional) && (not gating_only || contains c.role gating_roles)

-- The loop of `invisible_components`.
unfoldable pub unresolved : (String → Option Card) → Bool → List ComponentRef → List String
unresolved find gating_only [] = []
unresolved find gating_only (c ∷ cs) = elim (counted false gating_only c) [
  | false ↦ unresolved find gating_only cs
  | true ↦ elim (find c.id) [
    | none ↦ c.id ∷ unresolved find gating_only cs
    | some card ↦ unresolved find gating_only cs
  ]
]

unfoldable pub invisible_components : Card → (String → Option Card) → Bool → List String
unfolding unresolved
invisible_components card find gating_only = unresolved find gating_only (components card)

-- The loop of `effective_visibility`.
unfoldable pub resolve :
    (String → Option Card)
    → Bool
    → Bool
    → List ComponentRef
    → Dict Level
    → List String
    → Dict Level × List String
resolve find include_optional gating_only [] levels missing = (levels, missing)
resolve find include_optional gating_only (c ∷ cs) levels missing =
    elim (counted include_optional gating_only c) [
      | false ↦ resolve find include_optional gating_only cs levels missing
      | true ↦ elim (find c.id) [
        | none ↦ resolve find include_optional gating_only cs levels (missing ++ c.id ∷ [])
        | some card ↦
            resolve find include_optional gating_only cs (insert c.id (card_visibility card) levels)
              missing
      ]
    ]

-- The last lines of `effective_visibility`.
unfoldable pub conclude : String → Dict Level × List String → VisibilityReport
unfolding compose_visibility
conclude id (levels, []) = record {
  visibility = compose_visibility (map (λ l. some (level_name l)) (values levels));
  card = id;
  levels = levels;
  missing = [];
}
conclude id (levels, m ∷ ms) = record {
  visibility = secret;
  card = id;
  levels = levels;
  missing = m ∷ ms;
}

-- `lookup=None` finds nothing.
abbrev pub finder : Option (String → Option Card) → String → Option Card
finder none id = none
finder (some find) id = find id

-- `own` is the level that the caller knows from elsewhere.
abbrev pub own_level : Card → Option String → Level
own_level card none = card_visibility card
own_level card (some own) = normalize_visibility (some own)

unfoldable pub effective_visibility :
    Card → Option (String → Option Card) → Option String → Bool → Bool → VisibilityReport
effective_visibility card find own include_optional gating_only = elim card.composition [
  | none ↦ record {
    visibility = own_level card own;
    card = card.id;
    levels = (card.id, own_level card own) ∷ [];
    missing = [];
  }
  | some cs ↦ conclude card.id (
      resolve (finder find) include_optional gating_only cs ((card.id, own_level card own) ∷ []) [])
]
