-- ===== src/Recipe/Faults.antt =====
-- recipe/materialize.py: which errors can come out of it.
use geo_nexus_sdk.Base.{
  Outcome, ℕ, ◌&&◌, get_or, entries, none, ◌≡◌, refl, return, raise, zero, String, not, List, [],
  ◌∷◌, Dict, lookup, contains, keep, Json, null, bool, int, float, str, arr, obj, Items, nil, cons,
  Fields, end, field, fields, return, Option-cases, List-cases, inl, inr, trim,
}
use geo_nexus_sdk.Recipe.Model.{RecipeStep, Recipe}
use geo_nexus_sdk.Recipe.Checks.{step_ref, sort_texts}
use geo_nexus_sdk.Recipe.Queries.{is_null}
use geo_nexus_sdk.Recipe.Params.{Refusal, bad_value, too_large}
use geo_nexus_sdk.Recipe.Resources.{
  is_set, truthy, is_off, or_zero, or_refused, cpu_of, memory_mb_of, count_of, gpu_memory_of,
  gpu_from, plain_gpu, gpu_of, reserved, resources_of,
}
use geo_nexus_sdk.Recipe.Templates.{
  Piece, char, hole, fill, pieces, whole_template, unknown_in_fields, substitute_text, substitute,
  substitute_items, substitute_fields,
}
use geo_nexus_sdk.Recipe.Materialize.{
  Setup, task_io, build_inputs, undeclared_in, check_templates, texts,
}
use geo_nexus_sdk.Recipe.Endings.{Ends, AnyOf, chain-Ends, if-Ends}

-- What the steps are made of.
module _ (show : Json → String) (params : Dict Json) (id : String) where
  fill-Ends : (ps : List Piece) → Ends AnyOf (fill show params id ps)
  unfolding fill
  fill-Ends [] = tt
  fill-Ends (char c ∷ ps) =
      chain-Ends AnyOf AnyOf (fill show params id ps) _ (fill-Ends ps) (λ s _. tt)
  fill-Ends (hole name ∷ ps) = elim (Option-cases (lookup name params)) [
    | inl absent ↦ rw (fill, absent) tt
    | inr (v, found) ↦
        rw (fill, found)
          (chain-Ends AnyOf AnyOf (fill show params id ps) _ (fill-Ends ps) (λ s _. tt))
  ]

  substitute_text-Ends : (s : String) → Ends AnyOf (substitute_text show params id s)
  unfolding substitute_text
  substitute_text-Ends s = elim (Option-cases (whole_template (trim s))) [
    | inl partial ↦
        rw (substitute_text, partial)
          (chain-Ends AnyOf AnyOf (fill show params id (pieces zero s)) (λ t. return (str t))
            (fill-Ends (pieces zero s)) (λ t _. tt))
    | inr (name, whole) ↦ elim (Option-cases (lookup name params)) [
      | inl absent ↦ rw (substitute_text, whole, absent) tt
      | inr (v, found) ↦ rw (substitute_text, whole, found) tt
    ]
  ]

  mutual
    unfolding substitute

    substitute-Ends : (v : Json) → Ends AnyOf (substitute show params id v)
    substitute-Ends (str s) = substitute_text-Ends s
    substitute-Ends (arr vs) =
        chain-Ends AnyOf AnyOf (substitute_items show params id vs) (λ ws. return (arr ws))
          (substitute_items-Ends vs) (λ ws _. tt)
    substitute-Ends (obj fs) =
        chain-Ends AnyOf AnyOf (substitute_fields show params id fs) (λ gs. return (obj gs))
          (substitute_fields-Ends fs) (λ gs _. tt)
    substitute-Ends null = tt
    substitute-Ends (bool b) = tt
    substitute-Ends (int n) = tt
    substitute-Ends (float n) = tt

    substitute_items-Ends : (vs : Items) → Ends AnyOf (substitute_items show params id vs)
    substitute_items-Ends nil = tt
    substitute_items-Ends (cons v vs) =
        chain-Ends AnyOf AnyOf (substitute show params id v) _ (substitute-Ends v) λ w _.
          chain-Ends AnyOf AnyOf (substitute_items show params id vs) _ (substitute_items-Ends vs)
            (λ ws _. tt)

    pub substitute_fields-Ends : (fs : Fields) → Ends AnyOf (substitute_fields show params id fs)
    substitute_fields-Ends end = tt
    substitute_fields-Ends (field k v fs) =
        chain-Ends AnyOf AnyOf (substitute show params id v) _ (substitute-Ends v) λ w _.
          chain-Ends AnyOf AnyOf (substitute_fields show params id fs) _ (substitute_fields-Ends fs)
            (λ gs _. tt)

task_io-Ends : (v : Json) → Ends AnyOf (task_io v)
unfolding task_io
task_io-Ends (str ref) = elim (Option-cases (step_ref ref)) [
  | inl asset ↦ rw (task_io, asset) tt
  | inr (target, upstream) ↦ rw (task_io, upstream) tt
]
task_io-Ends null = tt
task_io-Ends (bool b) = tt
task_io-Ends (int n) = tt
task_io-Ends (float n) = tt
task_io-Ends (arr vs) = tt
task_io-Ends (obj fs) = tt

pub build_inputs-Ends :
    (setup : Setup) (recipe : Recipe) (params : Dict Json) (id : String) (inputs : Dict String)
    → Ends AnyOf (build_inputs setup recipe params id inputs)
unfolding build_inputs
build_inputs-Ends setup recipe params id [] = tt
build_inputs-Ends setup recipe params id ((name, ref) ∷ inputs) =
    chain-Ends AnyOf AnyOf (substitute setup.show params id (str ref)) _
      (substitute-Ends setup.show params id (str ref))
      λ v _. chain-Ends AnyOf AnyOf (task_io v) _ (task_io-Ends v) λ io _.
        chain-Ends AnyOf AnyOf (build_inputs setup recipe params id inputs) _
          (build_inputs-Ends setup recipe params id inputs) (λ ios _. tt)

undeclared_in-Ends :
    (declared : List String) (id : String) (blobs : List Fields)
    → Ends AnyOf (undeclared_in declared id blobs)
unfolding undeclared_in
undeclared_in-Ends declared id [] = tt
undeclared_in-Ends declared id (blob ∷ blobs) =
    elim (List-cases
      (sort_texts (keep (λ k. not (contains k declared)) (unknown_in_fields blob)))) [
        | inl all ↦ rw (undeclared_in, all) (undeclared_in-Ends declared id blobs)
        | inr (k, ks, some_left) ↦ rw (undeclared_in, some_left) tt
      ]

pub check_templates-Ends :
    (declared : List String) (steps : List RecipeStep) → Ends AnyOf (check_templates declared steps)
unfolding check_templates
check_templates-Ends declared [] = tt
check_templates-Ends declared (s ∷ steps) =
    let blobs = fields s.params ∷ texts s.inputs ∷ texts s.outputs ∷ [] in
    chain-Ends AnyOf AnyOf (undeclared_in declared s.id blobs) (λ _. check_templates declared steps)
      (undeclared_in-Ends declared s.id blobs) (λ _ _. check_templates-Ends declared steps)

-- What a step reserves.
or_zero-Ends : (o : Outcome Refusal ℕ) → Ends AnyOf (or_zero o)
or_zero-Ends (return n) = tt
or_zero-Ends (raise bad_value) = tt
or_zero-Ends (raise too_large) = tt

or_refused-Ends : (o : Outcome Refusal ℕ) → Ends AnyOf (or_refused o)
or_refused-Ends (return n) = tt
or_refused-Ends (raise r) = tt

module _ (cores whole : Json → Outcome Refusal ℕ) (show : Json → String) where
  gpu_from-Ends :
      (kind : String) (spec : Dict Json) → Ends AnyOf (gpu_from cores whole show kind spec)
  unfolding gpu_from
  gpu_from-Ends kind spec =
      let raw = get_or "memory_mb" null spec in
      chain-Ends AnyOf AnyOf (count_of cores whole show spec) _ (or_refused-Ends _) λ count _.
        chain-Ends AnyOf AnyOf (gpu_memory_of cores whole show raw) _
          (if-Ends AnyOf (is_null raw) (return none) _ tt (
            chain-Ends AnyOf AnyOf (or_refused (whole raw)) _ (or_refused-Ends (whole raw))
              (λ n _. tt)))
          (λ memory _. tt)

  plain_gpu-Ends : (v : Json) → Ends AnyOf (plain_gpu cores whole show v)
  plain_gpu-Ends v = if-Ends AnyOf (truthy v && not (is_off (show v))) _ _ tt tt

  gpu_of-Ends : (v : Json) → Ends AnyOf (gpu_of cores whole show v)
  unfolding gpu_of
  gpu_of-Ends (obj fs) =
      let kind = get_or "kind" (str "cuda") (entries fs) in
      if-Ends AnyOf (truthy kind && not (is_off (show kind)))
        (gpu_from cores whole show (show kind) (entries fs)) (return none)
        (gpu_from-Ends (show kind) (entries fs)) tt
  gpu_of-Ends null = plain_gpu-Ends null
  gpu_of-Ends (bool b) = plain_gpu-Ends (bool b)
  gpu_of-Ends (int n) = plain_gpu-Ends (int n)
  gpu_of-Ends (float n) = plain_gpu-Ends (float n)
  gpu_of-Ends (str s) = plain_gpu-Ends (str s)
  gpu_of-Ends (arr vs) = plain_gpu-Ends (arr vs)

  reserved-Ends : (spec : Dict Json) → Ends AnyOf (reserved cores whole show spec)
  unfolding reserved
  reserved-Ends spec =
      let cpu = get_or "cpu" null spec in
      let memory = get_or "memory_mb" (get_or "memory" null spec) spec in
      let gpu = get_or "gpu" null spec in
      chain-Ends AnyOf AnyOf (cpu_of cores whole show spec) _
        (if-Ends AnyOf (is_set cpu) _ _ (or_zero-Ends (cores cpu)) tt)
        λ c _.
          chain-Ends AnyOf AnyOf (memory_mb_of cores whole show spec) _
            (if-Ends AnyOf (is_set memory) _ _ (or_zero-Ends (whole memory)) tt)
            λ m _.
              chain-Ends AnyOf AnyOf (gpu_of cores whole show gpu) _ (gpu_of-Ends gpu) (λ g _. tt)

  resources_of-list :
      (s : RecipeStep) (spec : Dict Json)
      → s.resources ≡ spec
      → Ends AnyOf (resources_of cores whole show s)
  unfolding resources_of
  resources_of-list s [] h = rw (resources_of, h) tt
  resources_of-list s (e ∷ spec) h = rw (resources_of, h) (reserved-Ends (e ∷ spec))

  pub resources_of-Ends : (s : RecipeStep) → Ends AnyOf (resources_of cores whole show s)
  resources_of-Ends s = resources_of-list s s.resources refl
