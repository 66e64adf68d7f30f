-- ===== src/Policies/Guardrails.antt =====
-- reactifact/guardrails.py. The texts of reasons are left out. A section's parameters read and write
-- the fields of an application's model: its field names, the value of a field that is a text, and
-- `model_copy(update=…)`.
pub mod Screening
use reactifact.Prelude.Texts.{chars}
use reactifact.Prelude.{
  ℕ, String, Bool, true, false, not, Option, none, some, or_else, List, [], ◌∷◌, ◌==◌, ltb,
  if◌then◌else◌, string_eq, length,
}
use reactifact.Prelude.Dict.{Dict}
use reactifact.Model.{Model}
use reactifact.Context.{Context}
use reactifact.Runtime

-- `GuardrailAction`
pub data Action : Type 0 where
  allow violation redact block flag : Action

pub record GuardrailDecision : Type 0 where
  pub action : Action
  pub data_ : Option Model
  pub guardrail : String

abbrev pub allowed : String → GuardrailDecision
allowed name = record { action = allow; data_ = none; guardrail = name }

pub record Guardrail : Type 0 where
  pub name : String
  pub check : Model → Context → GuardrailDecision

module _ (model_fields : Model → List String) (text_at : Model → String → Option String)
    (with_fields : Dict String String → Model → Model) where
  unfoldable pub texts_at : List String → Model → Dict String String
  texts_at [] d = []
  texts_at (name ∷ names) d =
      let rest = texts_at names d in
      elim (text_at d name) [ none ↦ rest | some value ↦ (name, value) ∷ rest ]

  -- `_string_fields`, of a model
  unfoldable pub string_fields : Option (List String) → Model → Dict String String
  unfolding texts_at
  string_fields names d = texts_at (or_else names (model_fields d)) d

  -- The fields that a redactor changes
  unfoldable pub redactions : (String → String) → Dict String String → Dict String String
  redactions redactor [] = []
  redactions redactor ((name, value) ∷ fields) =
      let rest = redactions redactor fields in
      if redactor value == value then rest else (name, redactor value) ∷ rest

  unfoldable pub pii_guardrail : (String → String) → String → Option (List String) → Guardrail
  unfolding string_fields redactions
  pii_guardrail redactor name names = record {
    name = name;
    check = λ d ctx. elim (redactions redactor (string_fields names d)) [
      | [] ↦ allowed name
      | (u ∷ us) ↦ record {
        action = redact;
        data_ = some (with_fields (u ∷ us) d);
        guardrail = name;
      }
    ];
  }

  -- Whether some pattern is found in some text; a pattern is its search.
  unfoldable pub found_in : List (String → Bool) → String → Bool
  found_in [] value = false
  found_in (p ∷ ps) value = let rest = found_in ps value in if p value then true else rest

  unfoldable pub found : List (String → Bool) → Dict String String → Bool
  unfolding found_in
  found ps [] = false
  found ps ((name, value) ∷ fields) =
      let rest = found ps fields in if found_in ps value then true else rest

  unfoldable pub pattern_guardrail :
      List (String → Bool) → String → Option (List String) → Action → Guardrail
  unfolding string_fields found
  pattern_guardrail ps name names action = record {
    name = name;
    check = λ d ctx.
        if found ps (string_fields names d)
        then record { action = action; data_ = none; guardrail = name }
        else allowed name;
  }

  unfoldable pub size_guardrail : ℕ → String → Action → String → Guardrail
  size_guardrail max_chars field action name = record {
    name = name;
    check = λ d ctx. elim (text_at d field) [
      | none ↦ allowed name
      | some value ↦
          if ltb max_chars (length (chars value))
          then record { action = action; data_ = none; guardrail = name }
          else allowed name
    ];
  }

-- `on_violation`
pub data OnViolation : Type 0 where
  or_block or_flag : OnViolation

pub record GuardrailPolicy : Type 0 where
  pub guardrails : List Guardrail
  pub on_violation : OnViolation

unfoldable pub resolved : OnViolation → Action → Action
resolved or_block violation = block
resolved or_flag violation = flag
resolved on action = action

-- Whether the loop goes on after an action.
abbrev pub goes_on : Action → Bool
goes_on allow = true
goes_on redact = true
goes_on _ = false

-- The data after a guardrail, and whether they are still the object that came in.
abbrev pub replaced : GuardrailDecision → Model → Model
replaced d current = elim d.action [ redact ↦ or_else d.data_ current | _ ↦ current ]

abbrev pub is_replaced : GuardrailDecision → Bool → Bool
is_replaced d changed = elim d.action [
  | redact ↦ elim d.data_ [ none ↦ changed | some x ↦ true ]
  | _ ↦ changed
]

-- The end of `evaluate`, when every guardrail let the data pass.
abbrev pub passed : Bool → Model → GuardrailDecision
passed changed current =
    if changed then record { action = redact; data_ = some current; guardrail = "" } else allowed ""

-- A verdict that ends the loop
unfoldable pub final_verdict :
    OnViolation → Guardrail → GuardrailDecision → Model → GuardrailDecision
unfolding resolved
final_verdict on g d current = record {
  action = resolved on d.action;
  data_ = some current;
  guardrail = if d.guardrail == "" then g.name else d.guardrail;
}

-- The loop of `evaluate`
unfoldable pub evaluate_from :
    OnViolation → List Guardrail → Context → Bool → Model → GuardrailDecision
unfolding final_verdict
evaluate_from on [] ctx changed current = passed changed current
evaluate_from on (g ∷ gs) ctx changed current =
    let d = g.check current ctx in
    let rest = evaluate_from on gs ctx (is_replaced d changed) (replaced d current) in
    if goes_on d.action then rest else final_verdict on g d current

unfoldable pub evaluate : GuardrailPolicy → Model → Context → GuardrailDecision
unfolding evaluate_from
evaluate p d ctx = evaluate_from p.on_violation p.guardrails ctx false d

-- The verdict as the runtime reads it
unfoldable pub verdict_of : GuardrailDecision → Runtime.Decision
verdict_of d = elim d.action [
  | allow ↦ Runtime.allow
  | redact ↦ Runtime.redact d.data_
  | flag ↦ Runtime.flag
  | _ ↦ Runtime.block
]
