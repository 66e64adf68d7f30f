-- ===== src/Policies/Vetted.antt =====
-- The checks of the runtime under policies of this package: what a patch does after them.
use reactifact.Prelude.{◌≡◌, ◌≢◌, String, true, Bool, Option, none, some, List, []}
use reactifact.Result.{ok}
use reactifact.Model.{Class}
use reactifact.Operations.{Operation}
use reactifact.Context.{Context}
use reactifact.Runtime.{
  Config, AgentResult, PatchWork, checked, Produce, allowed_types, creates_within, all_allowed,
  Verb, may_create, may_update, may_delete,
}
use reactifact.Runtime.Vetting.{checked-IsVetted}
use reactifact.Policies.Guardrails.{GuardrailPolicy, evaluate, verdict_of}
use reactifact.Policies.Guardrails.Screening.{AllKeepClass, evaluate-KeepsClass}
use reactifact.Policies.Permissions.{Principal, PermissionPolicy, authorize}

abbrev verb_text : Verb → String
verb_text may_create = "create"
verb_text may_update = "update"
verb_text may_delete = "delete"

abbrev resource_text : (Class → String) → Option Class → String
resource_text class_name none = "artifact"
resource_text class_name (some c) = class_name c

-- What `_enforce_authorization` asks for each operation
unfoldable pub asks :
    (Class → String) → PermissionPolicy → Option Principal → Verb → Option Class → Bool
unfolding authorize
asks class_name policy who verb c =
    authorize policy who (verb_text verb) (resource_text class_name c)

-- A patch that passes the checks, under a policy of guardrails that put data in place only of the
-- same class, and a policy of permissions: as it is applied, what it creates is still declared by
-- its agent, if the agent declares some types, and the principal may do each of its operations.
pub checked-policies :
    (cfg : Config) (ctx : Context) (r : AgentResult) (ops : List Operation) (p : PatchWork)
    (ps : List Produce) (class_name : Class → String) (permissions : PermissionPolicy)
    (who : Option Principal) (policy : GuardrailPolicy)
    → checked cfg ctx r ops ≡ ok p
    → r.agent.produces ≡ some ps
    → allowed_types ps ≢ []
    → cfg.authorizer ≡ some (asks class_name permissions who)
    → cfg.guardrails ≡ some (λ d c. verdict_of (evaluate policy d c))
    → AllKeepClass ctx policy.guardrails
    → (creates_within (allowed_types ps) p.operations ≡ true)
      × (all_allowed (asks class_name permissions who) p.operations ≡ true)
checked-policies cfg ctx r ops p ps class_name permissions who policy done declared some_types
      authorized guarded_ keep =
    checked-IsVetted cfg ctx r ops p ps (asks class_name permissions who)
      (λ d c. verdict_of (evaluate policy d c)) done declared some_types authorized guarded_
      (evaluate-KeepsClass policy ctx keep)
