-- ===== src/Runtime/Checks.antt =====
-- The checks on a patch before it is applied: declared types, authorization and guardrails.
use reactifact.Prelude.{
  Bool, true, false, not, Option, none, some, List, [], ◌∷◌, if◌then◌else◌, string_eq,
}
use reactifact.Prelude.Sets.{add, contains, union}
use reactifact.Result.{
  Result, ok, err, undeclared_type, denied, guardrail_violation, ◌>>=◌, raise_if,
}
use reactifact.Model.{Model, Class, class_of, class_eq}
use reactifact.Operations.{Operation, create, update, delete, link, unlink}
use reactifact.Context.{Context}
use reactifact.Runtime.Agents.{Agent, Produce}

-- The set of classes that the agent's produces declare.
unfoldable pub allowed_types : List Produce → List Class
allowed_types [] = []
allowed_types (p ∷ ps) =
    let rest = union (allowed_types ps) p.also_creates in
    elim p.artifact_type [ none ↦ rest | some c ↦ add c rest ]

unfoldable pub creates_within : List Class → List Operation → Bool
unfolding class_of
creates_within allowed [] = true
creates_within allowed (create d aid i ∷ ops) =
    if contains (class_of d) allowed then creates_within allowed ops else false
creates_within allowed (op ∷ ops) = creates_within allowed ops

unfoldable pub validate_patch_types : Agent → List Operation → Result (Unit {0})
unfolding allowed_types creates_within
validate_patch_types agent ops = elim agent.produces [
  | none ↦ ok tt
  | some ps ↦ elim (allowed_types ps) [
    | [] ↦ ok tt
    | c ∷ cs ↦ raise_if (not (creates_within (c ∷ cs) ops)) undeclared_type
  ]
]

pub data Verb : Type 0 where
  may_create may_update may_delete : Verb

-- The application's authorizer: the verb, and the class; `none` for the resource `artifact`.
abbrev pub Authorizer : Type 0
Authorizer = Option (Verb → Option Class → Bool)

unfoldable pub op_allowed : (Verb → Option Class → Bool) → Operation → Bool
unfolding class_of
op_allowed may (create d aid i) = may may_create (some (class_of d))
op_allowed may (update aid d) = may may_update (some (class_of d))
op_allowed may (delete aid) = may may_delete none
op_allowed may (link s r t) = true
op_allowed may (unlink s r t) = true

unfoldable pub all_allowed : (Verb → Option Class → Bool) → List Operation → Bool
unfolding op_allowed
all_allowed may [] = true
all_allowed may (op ∷ ops) = if op_allowed may op then all_allowed may ops else false

unfoldable pub enforce_authorization : Authorizer → List Operation → Result (Unit {0})
unfolding all_allowed
enforce_authorization none ops = ok tt
enforce_authorization (some may) ops = raise_if (not (all_allowed may ops)) denied

-- The verdict of the application's guardrail policy.
pub data Decision : Type 0 where
  allow flag block : Decision
  redact : Option Model → Decision

-- What `_apply_guardrails` does with the data of one operation.
unfoldable pub guarded : Decision → Model → Result Model
guarded allow d = ok d
guarded flag d = ok d
guarded block d = err guardrail_violation
guarded (redact none) d = ok d
guarded (redact (some d')) d = ok d'

unfoldable pub guard_op : (Model → Decision) → Operation → Result Operation
unfolding guarded
guard_op evaluate (create d aid i) = guarded (evaluate d) d >>= λ d'. ok (create d' aid i)
guard_op evaluate (update aid d) = guarded (evaluate d) d >>= λ d'. ok (update aid d')
guard_op evaluate (delete aid) = ok (delete aid)
guard_op evaluate (link s r t) = ok (link s r t)
guard_op evaluate (unlink s r t) = ok (unlink s r t)

unfoldable pub guard_ops : (Model → Decision) → List Operation → Result (List Operation)
unfolding guard_op
guard_ops evaluate [] = ok []
guard_ops evaluate (op ∷ ops) =
    guard_op evaluate op >>= λ op'. guard_ops evaluate ops >>= λ ops'. ok (op' ∷ ops')

abbrev pub Guardrails : Type 0
Guardrails = Option (Model → Context → Decision)

unfoldable pub apply_guardrails : Guardrails → Context → List Operation → Result (List Operation)
unfolding guard_ops
apply_guardrails none ctx ops = ok ops
apply_guardrails (some evaluate) ctx ops = guard_ops (λ d. evaluate d ctx) ops
