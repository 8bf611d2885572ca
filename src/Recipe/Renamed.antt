-- ===== src/Recipe/Renamed.antt =====
-- recipe/model.py and geotask/graph.py: the checks of a recipe and those of a graph of tasks, where the tasks
-- are the steps under other names.
use geo_nexus_sdk.Base.{
  ℕ, zero, suc, ◌-◌, String, Bool, true, false, ◌&&◌, some, List, [], ◌∷◌, ◌++◌, Dict, map, lookup,
  insert, get_or, contains, length, keep, eqb, if◌then◌else◌, ◌==◌, ◌≡◌, refl, sym, ap, ◌∙◌, arith,
  Bool-cases, inl, inr, All,
}
use geo_nexus_sdk.Geotask.Model.{GeoTask}
use geo_nexus_sdk.Geotask.Graph.{sweep, kahn}
use geo_nexus_sdk.Recipe.Model.{RecipeStep}
use geo_nexus_sdk.Recipe.Checks.{sweep_steps, kahn_steps}

abbrev pub step_entry : RecipeStep → String × RecipeStep
step_entry s = (s.id, s)

module _ (f : String → String) where
  -- The tasks are the steps under other names.
  abbrev pub Renamed : List RecipeStep → List GeoTask → Type 0
  Renamed [] [] = Unit
  Renamed (s ∷ ss) (t ∷ ts) =
      (t.task_id ≡ f s.id) × (t.depends_on ≡ map f s.depends_on) × Renamed ss ts
  Renamed _ _ = ⊥

  abbrev pub renamed {ℓ} : {V : Type ℓ} → Dict V → Dict V
  renamed = map (λ e. (f e.0, e.1))

  pub length-renamed : (ks : List String) → length (map f ks) ≡ length ks
  length-renamed [] = refl
  length-renamed (k ∷ ks) = ap suc (length-renamed ks)

  pub map-append : (xs ys : List String) → map f (xs ++ ys) ≡ map f xs ++ map f ys
  map-append [] ys = refl
  map-append (x ∷ xs) ys = ap (λ r. f x ∷ r) (map-append xs ys)

  module _ (apart : (a b : String) → (f a == f b) ≡ (a == b)) where
    pub contains-renamed :
        (k : String) (ks : List String) → contains (f k) (map f ks) ≡ contains k ks
    contains-renamed k [] = refl
    contains-renamed k (j ∷ ks) = ground (arith, apart j k, contains-renamed k ks)

    pub get_or-renamed :
        (k : String) (n : ℕ) (d : Dict ℕ) → get_or (f k) n (renamed d) ≡ get_or k n d
    unfolding get_or lookup
    get_or-renamed k n [] = refl
    get_or-renamed k n ((j, v) ∷ d) = ground (arith, apart j k, get_or-renamed k n d)

    insert-renamed :
        (k : String) (n : ℕ) (d : Dict ℕ) → insert (f k) n (renamed d) ≡ renamed (insert k n d)
    unfolding insert
    insert-renamed k n [] = refl
    insert-renamed k n ((j, v) ∷ d) = elim (Bool-cases (j == k)) [
      | inl same ↦ rw (apart j k, same) refl
      | inr other ↦ rw (apart j k, other) (ap (λ r. (f j, v) ∷ r) (insert-renamed k n d))
    ]

    pub keep-renamed :
        (d : Dict ℕ) (ks : List String)
        → keep (λ id. eqb (get_or id 0 (renamed d)) 0) (map f ks)
          ≡ map f (keep (λ id. eqb (get_or id 0 d) 0) ks)
    keep-renamed d [] = refl
    keep-renamed d (k ∷ ks) = ground (arith, get_or-renamed k 0 d, keep-renamed d ks)

    lowered-renamed :
        (hit : Bool) (k : String) (d : Dict ℕ)
        → (if hit then insert (f k) (get_or (f k) 0 (renamed d) - 1) (renamed d) else renamed d)
          ≡ renamed (if hit then insert k (get_or k 0 d - 1) d else d)
    lowered-renamed true k d =
        ap (λ n. insert (f k) (n - 1) (renamed d)) (get_or-renamed k 0 d)
        ∙ insert-renamed k (get_or k 0 d - 1) d
    lowered-renamed false k d = refl

    queued-renamed :
        (hit : Bool) (k : String) (d : Dict ℕ) (ready : List String)
        → (if hit && eqb (get_or (f k) 0 (renamed d)) 1
            then map f ready ++ f k ∷ []
            else map f ready)
          ≡ map f (if hit && eqb (get_or k 0 d) 1 then ready ++ k ∷ [] else ready)
    queued-renamed hit k d ready = elim (Bool-cases (hit && eqb (get_or k 0 d) 1)) [
      | inl next ↦ rw (get_or-renamed k 0 d, next) (sym (map-append ready (k ∷ [])))
      | inr later ↦ rw (get_or-renamed k 0 d, later) refl
    ]

    -- One sweep over the steps, and over their tasks.
    sweep-renamed :
        (nodes : Dict GeoTask) (id : String) (ss : List RecipeStep) (ts : List GeoTask) (d : Dict ℕ)
        (ready : List String)
        → Renamed ss ts
        → All (λ (t : GeoTask). lookup t.task_id nodes ≡ some t) ts
        → sweep nodes (f id) (map (λ t. t.task_id) ts) (renamed d) (map f ready)
          ≡ (let next = sweep_steps id ss d ready in (renamed next.0, map f next.1))
    unfolding sweep sweep_steps
    sweep-renamed nodes id [] [] d ready r found = refl
    sweep-renamed nodes id (s ∷ ss) [] d ready r found = absurd r
    sweep-renamed nodes id [] (t ∷ ts) d ready r found = absurd r
    sweep-renamed nodes id (s ∷ ss) (t ∷ ts) d ready (named, deps, r) (here, found) =
        let hit = contains id s.depends_on in
        let same_hit : contains (f id) t.depends_on ≡ hit =
          ap (contains (f id)) deps ∙ contains-renamed id s.depends_on in
        let lowered =
          ap
            (λ b.
              if b
              then insert t.task_id (get_or t.task_id 0 (renamed d) - 1) (renamed d)
              else renamed d)
            same_hit
          ∙ (ap (λ k. if hit then insert k (get_or k 0 (renamed d) - 1) (renamed d) else renamed d)
                named
              ∙ lowered-renamed hit s.id d) in
        let queued =
          ap
            (λ b.
              if b && eqb (get_or t.task_id 0 (renamed d)) 1
              then map f ready ++ t.task_id ∷ []
              else map f ready)
            same_hit
          ∙ (ap
                (λ k.
                  if hit && eqb (get_or k 0 (renamed d)) 1
                  then map f ready ++ k ∷ []
                  else map f ready)
                named
              ∙ queued-renamed hit s.id d ready) in
        rw (here, sweep)
          ((λ i. sweep nodes (f id) (map (λ t. t.task_id) ts) (lowered i) (queued i))
            ∙ sweep-renamed nodes id ss ts _ _ r found)

    -- The whole loop.
    pub kahn-renamed :
        (nodes : Dict GeoTask) (ss : List RecipeStep) (ts : List GeoTask)
        → Renamed ss ts
        → All (λ (t : GeoTask). lookup t.task_id nodes ≡ some t) ts
        → (fuel : ℕ) (d : Dict ℕ) (ready out : List String)
        → kahn fuel nodes (map (λ t. t.task_id) ts) (renamed d) (map f ready) (map f out)
          ≡ map f (kahn_steps fuel ss d ready out)
    unfolding kahn kahn_steps
    kahn-renamed nodes ss ts r found zero d ready out = refl
    kahn-renamed nodes ss ts r found (suc fuel) d [] out = refl
    kahn-renamed nodes ss ts r found (suc fuel) d (id ∷ ready) out =
        let next = sweep_steps id ss d ready in
        (λ i.
          let step = sweep-renamed nodes id ss ts d ready r found i in
          kahn fuel nodes (map (λ (t : GeoTask). t.task_id) ts) step.0 step.1
            (sym (map-append out (id ∷ [])) i))
        ∙ kahn-renamed nodes ss ts r found fuel next.0 next.1 (out ++ id ∷ [])
