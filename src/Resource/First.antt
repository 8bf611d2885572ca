-- ===== src/Resource/First.antt =====
-- resource.py, match_resource: the first node that can host the model is chosen.
use geo_nexus_sdk.Base.{
  ℕ, ℤ, leb_int, String, Bool, true, false, Option, none, some, List, [], ◌∷◌, ◌++◌, ◌≡◌, ◌⊎◌, inl,
  inr, refl, ap, All, arith, Bool-cases,
}
use geo_nexus_sdk.Geocard.Model.{RuntimeSection}
use geo_nexus_sdk.Resource.Sizes.{Size, leb_size, parse_memory, to_int}
use geo_nexus_sdk.Resource.{
  ComputeCapability, Reason, ResourceMatch, in_gpu_none, gpu_norm, gpu_satisfies, check_cpu,
  check_memory, check_gpu, check_node, search_node, match_resource,
}

-- A quantity that is required is met by one that is known and enough, or that is unknown where the
-- caller is not strict.
abbrev pub Meets : {A : Type 0} → (A → A → Bool) → Bool → Option A → Option A → Type 0
Meets enough strict none offered = Unit
Meets enough strict (some need) none = strict ≡ false
Meets enough strict (some need) (some offered) = enough need offered ≡ true

-- The node has the cores, the memory and the GPU that the model asks for.
pub record CanHost (strict : Bool) (runtime : RuntimeSection) (host : ComputeCapability)
    : Type 0 where
  pub cpu : Meets leb_int strict (to_int runtime.cpu) host.cpu
  pub memory : Meets leb_size strict (parse_memory runtime.memory) host.memory_gb
  pub gpu :
      (in_gpu_none (gpu_norm runtime.gpu) ≡ true)
      ⊎ (gpu_satisfies (gpu_norm runtime.gpu) host.gpu ≡ true)

module _ (strict : Bool) where
  check_cpu-Meets :
      (need cpu : Option ℤ) → (check_cpu strict need cpu).1 ≡ true → Meets leb_int strict need cpu
  unfolding check_cpu
  check_cpu-Meets none cpu h = tt
  check_cpu-Meets (some need) none h = ground arith
  check_cpu-Meets (some need) (some cpu) h = ground arith

  Meets-check_cpu :
      (need cpu : Option ℤ) → Meets leb_int strict need cpu → (check_cpu strict need cpu).1 ≡ true
  unfolding check_cpu
  Meets-check_cpu none cpu h = refl
  Meets-check_cpu (some need) none h = ground arith
  Meets-check_cpu (some need) (some cpu) h = rw h refl

  check_memory-Meets :
      (need memory : Option Size)
      → (check_memory strict need memory).1 ≡ true
      → Meets leb_size strict need memory
  unfolding check_memory
  check_memory-Meets none memory h = tt
  check_memory-Meets (some need) none h = ground arith
  check_memory-Meets (some need) (some memory) h = ground arith

  Meets-check_memory :
      (need memory : Option Size)
      → Meets leb_size strict need memory
      → (check_memory strict need memory).1 ≡ true
  unfolding check_memory
  Meets-check_memory none memory h = refl
  Meets-check_memory (some need) none h = ground arith
  Meets-check_memory (some need) (some memory) h = rw h refl

  check_gpu-Meets :
      (need : List ℕ) (gpu : Option String)
      → (check_gpu need gpu).1 ≡ true
      → (in_gpu_none need ≡ true) ⊎ (gpu_satisfies need gpu ≡ true)
  unfolding check_gpu
  check_gpu-Meets need gpu h = elim (Bool-cases (in_gpu_none need)) [
    | inl unneeded ↦ inl unneeded
    | inr needed ↦ elim (Bool-cases (gpu_satisfies need gpu)) [
      | inl provided ↦ inr provided
      | inr lacking ↦ absurd (ground arith)
    ]
  ]

  Meets-check_gpu :
      (need : List ℕ) (gpu : Option String)
      → (in_gpu_none need ≡ true) ⊎ (gpu_satisfies need gpu ≡ true)
      → (check_gpu need gpu).1 ≡ true
  unfolding check_gpu
  Meets-check_gpu need gpu h = ground arith

  module _ (runtime : RuntimeSection) where
    -- The body of the loop passes a node just when the node can host the model.
    pub check_node-CanHost :
        (host : ComputeCapability)
        → (check_node strict runtime host).1 ≡ true
        → CanHost strict runtime host
    unfolding check_node
    check_node-CanHost host h = record {
      cpu = check_cpu-Meets (to_int runtime.cpu) host.cpu (ground arith);
      memory = check_memory-Meets (parse_memory runtime.memory) host.memory_gb (ground arith);
      gpu = check_gpu-Meets (gpu_norm runtime.gpu) host.gpu (ground arith);
    }

    pub CanHost-check_node :
        (host : ComputeCapability)
        → CanHost strict runtime host
        → (check_node strict runtime host).1 ≡ true
    unfolding check_node
    CanHost-check_node host c =
        rw
          (
            Meets-check_cpu (to_int runtime.cpu) host.cpu c.cpu,
            Meets-check_memory (parse_memory runtime.memory) host.memory_gb c.memory,
            Meets-check_gpu (gpu_norm runtime.gpu) host.gpu c.gpu,
          )
          refl

    abbrev pub Refused : ComputeCapability → Type 0
    Refused host = ¬ CanHost strict runtime host

    -- The choice of a loop over these nodes: the first that can host the model, or none where none can.
    pub record Chosen (hosts : List ComputeCapability) (r : ResourceMatch) : Type 0 where
      pub before : List ComputeCapability
      pub node : ComputeCapability
      pub after : List ComputeCapability
      pub split : hosts ≡ before ++ node ∷ after
      pub refused : All Refused before
      pub hosted : CanHost strict runtime node
      pub answer : (r.matched ≡ true) × (r.compute_node ≡ some node.node_url)

    abbrev pub NoneChosen : List ComputeCapability → ResourceMatch → Type 0
    NoneChosen hosts r = All Refused hosts × (r.matched ≡ false) × (r.compute_node ≡ none)

    search_node-first :
        (hosts : List ComputeCapability) (id : String) (reasons : List Reason)
        → Chosen hosts (search_node strict id runtime hosts reasons)
          ⊎ NoneChosen hosts (search_node strict id runtime hosts reasons)
    unfolding search_node
    search_node-first [] id reasons = inr (tt, refl, refl)
    search_node-first (host ∷ hosts) id reasons =
        elim (Bool-cases (check_node strict runtime host).1) [
          | inl passed ↦
              rw (passed, search_node)
                (inl (record {
                  before = [];
                  node = host;
                  after = hosts;
                  split = refl;
                  refused = tt;
                  hosted = check_node-CanHost host passed;
                  answer = (refl, refl);
                }))
          | inr failed ↦
              let no_host : Refused host = λ c. cc (CanHost-check_node host c) in
              elim (search_node-first hosts id _) [
                | inl c ↦
                    rw (failed, search_node)
                      (inl (record {
                        before = host ∷ c.before;
                        node = c.node;
                        after = c.after;
                        split = ap (λ l. host ∷ l) c.split;
                        refused = (no_host, c.refused);
                        hosted = c.hosted;
                        answer = c.answer;
                      }))
                | inr (all, matched, node) ↦
                    rw (failed, search_node) (inr ((no_host, all), matched, node))
              ]
        ]

    -- For a model that declares a runtime, the match names the first node with the cores, the
    -- memory and the GPU that are asked for, each quantity as to_int and parse_memory read it
    -- (which takes a number of MB for one of GiB), and where there is no such node it fails and
    -- names none.
    pub match_resource-first :
        (id : String) (hosts : List ComputeCapability)
        → Chosen hosts (match_resource id (some runtime) hosts strict)
          ⊎ NoneChosen hosts (match_resource id (some runtime) hosts strict)
    unfolding match_resource
    match_resource-first id hosts = search_node-first hosts id []
