-- ===== src/Tests/Policing.antt =====
-- The theorems on policies and on texts of replies.
use reactifact.Prelude.Texts.{chars}
use reactifact.Prelude.{
  String, ◌≡◌, ◌≢◌, ◌↔◌, refl, true, false, Option, none, some, List, [], ◌∷◌, ◌++◌, ◌⊎◌,
  if◌then◌else◌, string_eq,
}
use reactifact.Prelude.Dict.{lookup}
use reactifact.Prelude.Sets.{contains, add, union}
use reactifact.Result.{ok, err, denied}
use reactifact.Model.{
  Model, Class, app, pending_question, pending_action, plain, question, action, class_of, class_beq,
  class_eq,
}
use reactifact.Operations.{create}
use reactifact.Context.{empty_context}
use reactifact.Runtime.{
  guarded, Config, Produce, nothing, PatchWork, checked, allowed_types, creates_within, all_allowed,
}
use reactifact.Policies.Guardrails.{
  Guardrail, GuardrailPolicy, allow, redact, flag, or_block, replaced, evaluate, verdict_of,
}
use reactifact.Policies.Guardrails.Screening.{IsScreened, AllKeepClass, evaluate-IsScreened}
use reactifact.Policies.Permissions.{Principal, PermissionPolicy, authorize, require, partition}
use reactifact.Policies.Permissions.Granted.{Granted, authorize_lem}
use reactifact.Policies.Vetted.{asks, checked-policies}
use reactifact.Llm.Structured.Extract.{extract_json, unfence}
use reactifact.Llm.Structured.Balanced.{Body, empty, other, extract_json_lem}
use reactifact.Tests.Data.{draft}
use reactifact.Tests.Turns.{agent_of, woken, idle, result}

-- A guardrail that blanks the fields of the application's models.
abbrev blank : Guardrail
blank = record {
  name = "blank";
  check = λ d ctx. elim d [
    | plain c fields ↦ record { action = redact; data_ = some (plain c "{}"); guardrail = "blank" }
    | _ ↦ record { action = allow; data_ = none; guardrail = "blank" }
  ];
}

abbrev suspicious : Guardrail
suspicious = record {
  name = "suspicious";
  check = λ d ctx. record { action = flag; data_ = none; guardrail = "suspicious" };
}

abbrev blank_then_flag : GuardrailPolicy
blank_then_flag = record { guardrails = blank ∷ suspicious ∷ []; on_violation = or_block }

evaluate-IsScreened_example :
    IsScreened empty_context or_block
      (blank ∷ suspicious ∷ [])
      draft
      draft
      (guarded (verdict_of (evaluate blank_then_flag draft empty_context)) draft)
evaluate-IsScreened_example = evaluate-IsScreened blank_then_flag draft empty_context

abbrev blanking : GuardrailPolicy
blanking = record { guardrails = blank ∷ []; on_violation = or_block }

blank-class : (d : Model) → class_of (replaced (blank.check d woken) d) ≡ class_of d
unfolding class_of
blank-class (plain c fields) = refl
blank-class (question q) = refl
blank-class (action a) = refl

blanking-AllKeepClass : AllKeepClass woken (blank ∷ [])
blanking-AllKeepClass = (blank-class, tt)

abbrev author : Principal
author = record { id = "u"; capabilities = "writer" ∷ [] }

abbrev writers : PermissionPolicy
writers = record { grants = ("writer", "create" ∷ []) ∷ []; default_allow = false }

authorize_lem_example :
    ((authorize writers (some author) "create" "Note" ≡ true)
      ↔ (Granted "create" "Note" writers.grants author.capabilities ⊎ (false ≡ true)))
    × (authorize writers none "create" "Note" ≡ false)
    × ((w : Option Principal)
        → require writers w "create" "Note"
          ≡ (if authorize writers w "create" "Note" then ok tt else err denied))
authorize_lem_example = authorize_lem writers author "create" "Note"

abbrev class_text : Class → String
class_text (app c) = c
class_text pending_question = "PendingQuestion"
class_text pending_action = "PendingAction"

abbrev policed : Config
policed = record idle {
  authorizer = some (asks class_text writers (some author));
  guardrails = some (λ d c. verdict_of (evaluate blanking d c));
}

abbrev notes_only : List Produce
notes_only = record { artifact_type = some (app "Note"); also_creates = [] } ∷ []

abbrev blanked : PatchWork
blanked = record {
  operations = create (plain "Note" "{}") none none ∷ [];
  agent = agent_of nothing;
  reads = [];
}

passes_checks : checked policed woken result (create draft none none ∷ []) ≡ ok blanked
unfolding checked contains add union class_of class_beq asks authorize lookup evaluate partition
    chars verdict_of
passes_checks = refl

notes_declared : allowed_types notes_only ≢ []
unfolding allowed_types add union
notes_declared = λ e. cc e

checked-policies_example :
    (creates_within (allowed_types notes_only) blanked.operations ≡ true)
    × (all_allowed (asks class_text writers (some author)) blanked.operations ≡ true)
checked-policies_example =
    checked-policies policed woken result (create draft none none ∷ []) blanked notes_only
      class_text writers (some author) blanking passes_checks refl notes_declared refl refl
      blanking-AllKeepClass

abbrev unchanged : String → String
unchanged s = s

abbrev reply : String
reply = " ```json ok {a} {b}\n``` "

reply_parts :
    unfence (chars reply)
    ≡ ("o" ∷ "k" ∷ " " ∷ []) ++ ("{" ∷ ("a" ∷ []) ++ "}" ∷ " " ∷ "{" ∷ "b" ∷ "}" ∷ [])
unfolding chars unfence
reply_parts = refl

a-Body : Body ("a" ∷ [])
a-Body = other "a" refl refl refl empty

extract_json_lem_example : extract_json reply ≡ some "{a}"
extract_json_lem_example =
    extract_json_lem reply ("o" ∷ "k" ∷ " " ∷ []) ("a" ∷ []) (" " ∷ "{" ∷ "b" ∷ "}" ∷ []) "{" "}"
      reply_parts (refl, (refl, (refl, tt))) refl a-Body refl
