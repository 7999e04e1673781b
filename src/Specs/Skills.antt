-- ===== src/Specs/Skills.antt =====
-- skill_validation.py and the spec factory together: what the validator lets through the factory takes.
use text.Mathlib.Text.{◌==◌ as str_eq}
use Prim.Native.String.{◌++◌ as str_append}
use agent_on_demand.Prelude.{String, ◌≡◌, true, false, List, any, All, Distinct, map}
use agent_on_demand.Prelude.Result.{ok}
use agent_on_demand.Prelude.Text.{codes}
use agent_on_demand.Json.{Json, null, str}
use agent_on_demand.Validation.Skills.{is_skill_name, is_github_source}
use agent_on_demand.Specs.{SkillSpec, skill_spec, each}

-- The shapes that SkillSpec documents: the text of a named skill, all skills of a repository, or one.
pub data IsSkill : SkillSpec → Type 0 where
  inline :
      (name content : String)
      → is_skill_name (codes name) ≡ true
      → IsSkill record { name = str name; content = str content; source = null }
  whole :
      (source : String)
      → is_github_source (codes source) ≡ true
      → IsSkill record { name = null; content = null; source = str source }
  one :
      (name source : String)
      → is_skill_name (codes name) ≡ true
      → is_github_source (codes source) ≡ true
      → IsSkill record { name = str name; content = null; source = str source }

-- What a skill is installed as: its name, or its repository.
abbrev pub identity : SkillSpec → String
identity s = elim s.name [
  | str n ↦ n
  | _ ↦ elim s.source [ str r ↦ str_append "@github:" r | _ ↦ "" ]
]

-- What the factory makes of a skill that has this key.
abbrev Made : Json → String → Type 0
Made v key = (s : SkillSpec) × (skill_spec v ≡ ok s) × IsSkill s × (identity s ≡ key)

-- The rest of the loop: every skill is made, their identities differ and none was seen before.
abbrev Unseen : List String → SkillSpec → Type 0
Unseen seen s = any (str_eq (identity s)) seen ≡ false

abbrev AllMade : List String → List Json → Type 0
AllMade seen vs =
    (ss : List SkillSpec) × (each skill_spec vs ≡ ok ss)
    × All IsSkill ss
    × All (Unseen seen) ss
    × Distinct (map identity ss)
