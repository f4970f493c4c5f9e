-- ===== src/Detection/Rules.antt =====
-- `FieldMatcher`, `RuleCondition` and `DetectionRule` of backend/app/engines/detection/rules.py.
-- Regular expressions are a library's: what `re.compile(v, flags).search(value)` finds is a parameter.
use ai_powered_security_inve.Base.{
  ℕ, String, Bool, true, false, not, ◌&&◌, List, [], ◌∷◌, map, if◌then◌else◌, ◌==◌, any, ltb,
}
use ai_powered_security_inve.Base.Exec.{Result, ok, err}
use ai_powered_security_inve.Base.Text.{lower, begins_with, ends_with, occurs_in, text_length}
use ai_powered_security_inve.Schemas.Common.{Severity}

abbrev pub max_pattern_len : ℕ
max_pattern_len = 512

pub data Modifier : Type 0 where
  equals contains startswith endswith regex one_of : Modifier

pub record FieldMatcher : Type 0 where
  pub field : String
  pub modifier : Modifier
  pub values : List String
  pub case_sensitive : Bool

pub data MatcherError : Type 0 where
  empty_value long_value : MatcherError

-- `_validate_values`
unfoldable pub validate_values : List String → Result MatcherError Unit
validate_values [] = ok tt
validate_values (v ∷ values) =
    let rest = validate_values values in
    if v == ""
    then err empty_value
    else if ltb max_pattern_len (text_length v)
    then err long_value
    else rest

-- the pattern, whether its case counts, and the text that is searched
abbrev pub Search : Type 0
Search = String → Bool → String → Bool

abbrev pub folded : Bool → String → String
folded case_sensitive s = if case_sensitive then s else lower s

module _ (search : Search) where
  abbrev pub holds : Modifier → List String → String → Bool → String → List String → Bool
  holds equals needles hay case_sensitive value patterns = any (λ n. n == hay) needles
  holds contains needles hay case_sensitive value patterns = any (λ n. occurs_in n hay) needles
  holds startswith needles hay case_sensitive value patterns = any (λ n. begins_with n hay) needles
  holds endswith needles hay case_sensitive value patterns = any (λ n. ends_with n hay) needles
  holds one_of needles hay case_sensitive value patterns = any (λ n. n == hay) needles
  holds regex needles hay case_sensitive value patterns =
      any (λ p. search p case_sensitive value) patterns

  unfoldable pub matches : FieldMatcher → String → Bool
  matches m value =
      holds m.modifier (map (folded m.case_sensitive) m.values) (folded m.case_sensitive value)
        m.case_sensitive value m.values

pub record RuleCondition : Type 0 where
  pub all_of : List FieldMatcher
  pub any_of : List FieldMatcher
  pub none_of : List FieldMatcher

abbrev pub is_none : {A : Type 0} → List A → Bool
is_none [] = true
is_none (_ ∷ _) = false

-- `_require_positive_clause`, false where it raises
abbrev pub has_positive_clause : RuleCondition → Bool
has_positive_clause c = not (is_none c.all_of && is_none c.any_of)

pub record TechniqueRef : Type 0 where
  pub technique_id : String
  pub name : String
  pub tactic : String

pub record DetectionRule : Type 0 where
  pub id : String
  pub title : String
  pub description : String
  pub severity : Severity
  pub condition : RuleCondition
  pub techniques : List TechniqueRef
  pub tags : List String
  pub references : List String
  pub false_positives : List String
  pub enabled : Bool
  pub author : String
  pub version : ℕ
