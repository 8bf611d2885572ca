-- ===== src/Base/OwnKeys.antt =====
-- Dictionaries that keep each entry under its own key.
use Prim.Native.String.{String}
use text.Mathlib.Text.{◌==◌}
use text.Mathlib.TextEquality.{eq_iff}
use mathlib.Core.Path.{◌≡◌, refl, sym, ap, subst, ◌∙◌}
use mathlib.Core.Logic.{inl, inr}
use mathlib.Core.Bool.{true, false}
use mathlib.Core.List.{[], ◌∷◌, ◌++◌}
use mathlib.Core.Option.{some}
use native.Mathlib.Omega.{arith}
use geo_nexus_sdk.Base.Tests.{Bool-cases}
use geo_nexus_sdk.Base.Lists.{All, In}
use geo_nexus_sdk.Base.Dicts.{Dict, lookup, insert, remove, keys, values, contains, Distinct}

module _ {V : Type 0} (key : V → String) where
  -- Each entry is under its own key.
  abbrev pub Named : Dict V → Type 0
  Named = All (λ e. key e.1 ≡ e.0)

  pub Named-insert : (k : String) (v : V) (d : Dict V) → key v ≡ k → Named d → Named (insert k v d)
  unfolding insert
  Named-insert k v [] own h = (own, tt)
  Named-insert k v ((j, w) ∷ d) own h = elim (Bool-cases (j == k)) [
    | inl same ↦ rw same (own ∙ sym ((eq_iff j k).0 same), h.1)
    | inr other ↦ rw other (h.0, Named-insert k v d own h.1)
  ]

  pub Named-remove : (k : String) (d : Dict V) → Named d → Named (remove k d)
  unfolding remove
  Named-remove k [] h = tt
  Named-remove k ((j, w) ∷ d) h = elim (Bool-cases (j == k)) [
    | inl same ↦ rw same h.1
    | inr other ↦ rw other (h.0, Named-remove k d h.1)
  ]

  pub Named-lookup : (k : String) (v : V) (d : Dict V) → Named d → lookup k d ≡ some v → key v ≡ k
  unfolding lookup
  Named-lookup k v [] h found = cc
  Named-lookup k v ((j, w) ∷ d) h found = ground (arith, eq_iff j k, Named-lookup k v d h.1)

  -- What a lookup finds is among the values.
  pub lookup-In : (k : String) (v : V) (d : Dict V) → lookup k d ≡ some v → In v (values d)
  unfolding lookup
  lookup-In k v [] found = cc
  lookup-In k v ((j, w) ∷ d) found = elim (Bool-cases (j == k)) [
    | inl same ↦ inl (ground arith)
    | inr other ↦ inr (lookup-In k v d (ground arith))
  ]

  key-In : (v : V) (d : Dict V) → Named d → In v (values d) → contains (key v) (keys d) ≡ true
  key-In v [] h m = absurd m
  key-In v ((j, w) ∷ d) h (inl same) =
      let here : j ≡ key v = sym h.0 ∙ ap key same in rw ((eq_iff j (key v)).1 here) refl
  key-In v ((j, w) ∷ d) h (inr m) = ground (arith, key-In v d h.1 m)

  -- Where no key is double, a value is what is found under its key.
  pub In-lookup :
      (v : V) (d : Dict V)
      → Distinct (keys d)
      → Named d
      → In v (values d)
      → lookup (key v) d ≡ some v
  unfolding lookup
  In-lookup v [] one h m = absurd m
  In-lookup v ((j, w) ∷ d) one h (inl same) =
      let here : j ≡ key v = sym h.0 ∙ ap key same in rw ((eq_iff j (key v)).1 here) (ap some same)
  In-lookup v ((j, w) ∷ d) one h (inr m) = elim (Bool-cases (j == key v)) [
    | inl same ↦ absurd (
        let again : contains (key v) (keys d) ≡ false =
          subst (λ k. contains k (keys d) ≡ false) ((eq_iff j (key v)).0 same) one.0 in
        cc (key-In v d h.1 m))
    | inr other ↦ rw other (In-lookup v d one.1 h.1 m)
  ]

module _ {V : Type 0} where
  -- A new key is appended.
  pub insert-new :
      (k : String) (v : V) (d : Dict V)
      → contains k (keys d) ≡ false
      → insert k v d ≡ d ++ (k, v) ∷ []
  unfolding insert
  insert-new k v [] h = refl
  insert-new k v ((j, w) ∷ d) h = ground (arith, insert-new k v d)

  other_key :
      (j k : String) (v : V) (d rest : Dict V)
      → contains j (keys (d ++ (k, v) ∷ rest)) ≡ false
      → (k == j) ≡ false
  other_key j k v [] rest h = ground arith
  other_key j k v ((i, w) ∷ d) rest h = other_key j k v d rest (ground arith)

  -- Of distinct keys, one that comes later is not among those before.
  pub fresh_key :
      (k : String) (v : V) (d rest : Dict V)
      → Distinct (keys (d ++ (k, v) ∷ rest))
      → contains k (keys d) ≡ false
  fresh_key k v [] rest h = refl
  fresh_key k v ((j, w) ∷ d) rest h =
      ground (arith, eq_iff j k, eq_iff k j, other_key j k v d rest h.0, fresh_key k v d rest h.1)
