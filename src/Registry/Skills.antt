-- ===== src/Registry/Skills.antt =====
-- registry/store.py: the methods on skills.
use geo_nexus_sdk.Base.{
  String, Bool, true, false, not, Option, none, some, List, lookup, insert, remove, has, values,
  contains, ℕ, length, keep, return, raise, ◌==◌,
}
use geo_nexus_sdk.Registry.Models.{SkillEntry}
use geo_nexus_sdk.Registry.Store.{
  Codec, RegistryStore, Method, set_skills, skill_conflict, skill_not_found,
}

-- `if x is not None: results = [e for e in results if …]`
abbrev pub narrow {ℓ κ} : {A : Type ℓ} {B : Type κ} → (B → A → Bool) → Option B → List A → List A
narrow p none xs = xs
narrow p (some b) xs = keep (p b) xs

module _ {J : Type 0} where
  unfoldable pub get_skill : String → RegistryStore J → Option SkillEntry
  get_skill name s = lookup name s.skills

  unfoldable pub list_skills : RegistryStore J → List SkillEntry
  list_skills s = values s.skills

  unfoldable pub count_skills : RegistryStore J → ℕ
  count_skills s = length s.skills

  unfoldable pub search_skills :
      Option String → Option String → Option String → RegistryStore J → List SkillEntry
  search_skills capability name node_url s =
      narrow (λ u e. e.node_url == u) node_url
        (narrow (λ n e. e.skill.name == n) name
          (narrow (λ c e. contains c e.skill.capabilities) capability (values s.skills)))

module _ {J : Type 0} (codec : Codec J) where
  unfoldable pub register_skill : SkillEntry → Method codec Unit
  register_skill entry s = elim (has entry.skill.name s.skills) [
    | true ↦ (raise (skill_conflict entry.skill.name), s)
    | false ↦ (return tt, set_skills codec (insert entry.skill.name entry s.skills) s)
  ]

  unfoldable pub register_skill_or_update : SkillEntry → Method codec Bool
  register_skill_or_update entry s = (
    return (not (has entry.skill.name s.skills)),
    set_skills codec (insert entry.skill.name entry s.skills) s,
  )

  unfoldable pub unregister_skill : String → Method codec SkillEntry
  unregister_skill name s = elim (lookup name s.skills) [
    | none ↦ (raise (skill_not_found name), s)
    | some entry ↦ (return entry, set_skills codec (remove name s.skills) s)
  ]
