-- ===== src/Resource.antt =====
-- geonexus/resource.py: what a model card requires against what compute nodes offer. A size of memory
-- is an exact fraction of a GiB where the source has a float, and digits and letters are ASCII.
pub mod Sizes
pub mod First
mod Tests
use geo_nexus_sdk.Base.{
  ℕ, ℤ, pos, negsuc, leb_int, String, Bool, true, false, not, ◌&&◌, ◌||◌, Option, none, some, List,
  [], ◌∷◌, ◌++◌, map, codes, strip_left, strip_right, lower, same_text, starts_with, has_text,
  some_of, keep, or_text, if◌then◌else◌, ◌==◌, is_some,
}
use geo_nexus_sdk.Geocard.Model.{Amount, RuntimeSection}
use geo_nexus_sdk.Resource.Sizes.{Size, leb_size, parse_memory, to_int}

-- cpu: cores; memory_gb: GiB; none is unknown.
pub record ComputeCapability : Type 0 where
  pub node_url : String
  pub cpu : Option ℤ
  pub memory_gb : Option Size
  pub gpu : Option String

-- A reason is a value where the source writes a text. `passed_over` holds the reasons of a node that
-- its line joins.
pub data NodeReason : Type 0 where
  cpu_unknown : ℤ → Bool → NodeReason
  cpu_short : ℤ → ℤ → NodeReason
  memory_unknown : Size → Bool → NodeReason
  memory_short : Size → Size → NodeReason
  -- what is needed, and what the node has
  gpu_short gpu_provided : List ℕ → String → NodeReason
  gpu_unneeded : String → NodeReason

pub data Reason : Type 0 where
  no_requirements : Reason
  of_node : NodeReason → Reason
  selected : String → Reason
  passed_over : String → List NodeReason → Reason
  no_node : String → Reason

pub record ResourceMatch : Type 0 where
  pub matched : Bool
  pub model_id : String
  pub compute_node : Option String
  pub reasons : List Reason

-- _GPU_NONE
abbrev pub gpu_none : List String
gpu_none = "none" ∷ "no" ∷ "cpu" ∷ "" ∷ []

unfoldable pub in_gpu_none : List ℕ → Bool
unfolding same_text
in_gpu_none cs = some_of (λ w. same_text (codes w) cs) gpu_none

-- `str(value or "").strip().lower()`
unfoldable pub gpu_norm : Option String → List ℕ
unfolding strip_left strip_right
gpu_norm value = map lower (strip_right (strip_left (codes (or_text value ""))))

-- `_gpu_satisfies` on a requirement that is normalised already.
unfoldable pub gpu_satisfies : List ℕ → Option String → Bool
unfolding in_gpu_none gpu_norm same_text starts_with
gpu_satisfies required provided =
    let offered = gpu_norm provided in
    if in_gpu_none required
    then true
    else if in_gpu_none offered
    then false
    else same_text required offered
      || (starts_with offered required || starts_with required offered)

-- The three tests of the loop: each has its reasons and says whether the node passes.
unfoldable pub check_cpu : Bool → Option ℤ → Option ℤ → List NodeReason × Bool
check_cpu strict none cpu = ([], true)
check_cpu strict (some need) none = (cpu_unknown need strict ∷ [], not strict)
check_cpu strict (some need) (some cpu) =
    if leb_int need cpu then ([], true) else (cpu_short need cpu ∷ [], false)

unfoldable pub check_memory : Bool → Option Size → Option Size → List NodeReason × Bool
unfolding leb_size
check_memory strict none memory = ([], true)
check_memory strict (some need) none = (memory_unknown need strict ∷ [], not strict)
check_memory strict (some need) (some memory) =
    if leb_size need memory then ([], true) else (memory_short need memory ∷ [], false)

unfoldable pub check_gpu : List ℕ → Option String → List NodeReason × Bool
unfolding in_gpu_none gpu_satisfies
check_gpu need gpu =
    if in_gpu_none need
    then (gpu_unneeded (or_text gpu "none") ∷ [], true)
    else if gpu_satisfies need gpu
    then (gpu_provided need (or_text gpu "none") ∷ [], true)
    else (gpu_short need (or_text gpu "none") ∷ [], false)

-- The body of the loop on one node.
unfoldable pub check_node : Bool → RuntimeSection → ComputeCapability → List NodeReason × Bool
unfolding check_cpu check_memory check_gpu
check_node strict runtime host =
    let cpu = check_cpu strict (to_int runtime.cpu) host.cpu in
    let memory = check_memory strict (parse_memory runtime.memory) host.memory_gb in
    let gpu = check_gpu (gpu_norm runtime.gpu) host.gpu in
    (cpu.0 ++ (memory.0 ++ gpu.0), cpu.1 && (memory.1 && gpu.1))

-- `"unknown" not in r`: of the names in a text, only those of a GPU are free.
unfoldable pub is_known : NodeReason → Bool
unfolding has_text
is_known (cpu_unknown need strict) = false
is_known (cpu_short need cpu) = true
is_known (memory_unknown need strict) = false
is_known (memory_short need memory) = true
is_known (gpu_short need gpu) =
    not (has_text (codes "unknown") need || has_text (codes "unknown") (codes gpu))
is_known (gpu_provided need gpu) =
    not (has_text (codes "unknown") need || has_text (codes "unknown") (codes gpu))
is_known (gpu_unneeded gpu) = not (has_text (codes "unknown") (codes gpu))

-- The loop over the nodes.
unfoldable pub search_node :
    Bool → String → RuntimeSection → List ComputeCapability → List Reason → ResourceMatch
unfolding check_node is_known
search_node strict id runtime [] reasons = record {
  matched = false;
  model_id = id;
  compute_node = none;
  reasons = reasons ++ no_node id ∷ [];
}
search_node strict id runtime (host ∷ caps) reasons =
    let outcome = check_node strict runtime host in
    elim outcome.1 [
      | true ↦ record {
        matched = true;
        model_id = id;
        compute_node = some host.node_url;
        reasons = reasons ++ (map of_node outcome.0 ++ selected host.node_url ∷ []);
      }
      | false ↦
          search_node strict id runtime caps
            (reasons ++ passed_over host.node_url (keep is_known outcome.0) ∷ [])
    ]

abbrev pub first_url : List ComputeCapability → Option String
first_url [] = none
first_url (host ∷ caps) = some host.node_url

-- What `match_resource` reads of a card: its id and its runtime.
unfoldable pub match_resource :
    String → Option RuntimeSection → List ComputeCapability → Bool → ResourceMatch
unfolding search_node
match_resource id none caps strict = record {
  matched = is_some (first_url caps);
  model_id = id;
  compute_node = first_url caps;
  reasons = no_requirements ∷ [];
}
match_resource id (some runtime) caps strict = search_node strict id runtime caps []
