-- ===== src/Resource/Tests.antt =====
-- The theorem about the match of resources at a concrete input, and runs of the functions.
use geo_nexus_sdk.Base.{
  ℕ, pos, negsuc, false, Option, none, some, [], ◌∷◌, ◌≡◌, ◌⊎◌, refl, strip_left, strip_right,
  same_text, starts_with, has_text,
}
use geo_nexus_sdk.Geocard.Model.{text, RuntimeSection}
use geo_nexus_sdk.Resource.Sizes.{
  Size, leb_size, parse_memory, memory_of, digits, fraction_of, factor_of, to_int, int_of,
  int_digits,
}
use geo_nexus_sdk.Resource.{
  ComputeCapability, match_resource, search_node, check_node, check_cpu, check_memory, check_gpu,
  in_gpu_none, gpu_norm, gpu_satisfies, is_known,
}
use geo_nexus_sdk.Resource.First.{Chosen, NoneChosen, match_resource-first}

abbrev size : ℕ → ℕ → Option Size
size n d = some (record { num = pos n; den = d })

-- A size in "MB" is read as that many GiB, though the documentation of `parse_memory` says otherwise.
sizes :
    (parse_memory (text " 4Gi ") ≡ size 4 1)
    × (parse_memory (text "1.5 GB") ≡ size 15 10)
    × (parse_memory (text "4096MiB") ≡ size 4096 1024)
    × (parse_memory (text "4096MB") ≡ size 4096 1)
    × (parse_memory (text "4.") ≡ none)
    × (parse_memory (text "4 T") ≡ none)
unfolding parse_memory memory_of digits fraction_of factor_of strip_left strip_right same_text
    starts_with
sizes = (refl, refl, refl, refl, refl, refl)

counts :
    (to_int (text " 1_0 ") ≡ some (pos 10))
    × (to_int (text "-2") ≡ some (negsuc 1))
    × (to_int (text "1__0") ≡ none)
    × (to_int (text "two") ≡ none)
unfolding to_int int_of int_digits strip_left strip_right
counts = (refl, refl, refl, refl)

abbrev model : RuntimeSection
model = record { cpu = text "4"; memory = text "8Gi"; gpu = some "CUDA" }

abbrev plain : ComputeCapability
plain = record { node_url = "plain"; cpu = some (pos 8); memory_gb = size 16 1; gpu = none }

abbrev fast : ComputeCapability
fast = record { node_url = "fast"; cpu = some (pos 8); memory_gb = none; gpu = some "cuda:0" }

chosen : (match_resource "m" (some model) (plain ∷ fast ∷ []) false).compute_node ≡ some "fast"
unfolding match_resource search_node check_node check_cpu check_memory check_gpu in_gpu_none
    gpu_norm gpu_satisfies is_known leb_size parse_memory memory_of digits fraction_of factor_of
    to_int int_of int_digits strip_left strip_right same_text starts_with has_text
chosen = refl

match_resource-first_example :
    Chosen false model
      (plain ∷ fast ∷ [])
      (match_resource "m" (some model) (plain ∷ fast ∷ []) false)
    ⊎ NoneChosen false model
        (plain ∷ fast ∷ [])
        (match_resource "m" (some model) (plain ∷ fast ∷ []) false)
match_resource-first_example = match_resource-first false model "m" (plain ∷ fast ∷ [])
