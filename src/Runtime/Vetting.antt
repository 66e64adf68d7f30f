-- ===== src/Runtime/Vetting.antt =====
-- What a patch that passes the checks of `_get_patches_to_apply` may still do.
use reactifact.Prelude.{
  ◌≡◌, ◌≢◌, refl, Bool, true, false, not, Option, none, some, List, [], ◌∷◌, arith, ap, ◌∙◌, sym,
}
use reactifact.Result.{ok, Error, ◌>>=◌, >>=-eq-ok, raise_if, undeclared_type, denied}
use reactifact.Model.{Model, Class, class_of, class_eq}
use reactifact.Operations.{Operation, create, update, delete, link, unlink}
use reactifact.Context.{Context}
use reactifact.Runtime.Agents.{Agent, Produce}
use reactifact.Runtime.Checks.{
  allowed_types, creates_within, validate_patch_types, Verb, op_allowed, all_allowed,
  enforce_authorization, Decision, allow, flag, block, redact, guarded, guard_op, guard_ops,
  apply_guardrails,
}
use reactifact.Runtime.Generation.{Config, AgentResult, PatchWork, checked}

ok_inj : {a b : List Operation} → ok a ≡ ok b → a ≡ b
ok_inj e = ground (arith, e)

work_inj : {a b : PatchWork} → ok a ≡ ok b → a ≡ b
work_inj e = ground (arith, e)

-- A policy whose redactions are of the class of what they replace.
abbrev pub KeepsClass : (Model → Decision) → Type 0
KeepsClass evaluate = (d d' : Model) → evaluate d ≡ redact (some d') → class_of d' ≡ class_of d

guarded-class :
    (evaluate : Model → Decision) (d d' : Model) (c : Decision)
    → KeepsClass evaluate
    → evaluate d ≡ c
    → guarded c d ≡ ok d'
    → class_of d' ≡ class_of d
unfolding guarded
guarded-class evaluate d d' allow keeps f e = ground (arith, e)
guarded-class evaluate d d' flag keeps f e = ground (arith, e)
guarded-class evaluate d d' block keeps f e = cc e
guarded-class evaluate d d' (redact none) keeps f e = ground (arith, e)
guarded-class evaluate d d' (redact (some x)) keeps f e = ground (arith, e, keeps d x f)

module _ (evaluate : Model → Decision) (may : Verb → Option Class → Bool)
    (allowed : List Class) where
  guard_op-class :
      (op op' : Operation) (ops : List Operation)
      → KeepsClass evaluate
      → guard_op evaluate op ≡ ok op'
      → (op_allowed may op' ≡ op_allowed may op)
        × (creates_within allowed (op' ∷ ops) ≡ creates_within allowed (op ∷ ops))
  unfolding guard_op op_allowed creates_within
  guard_op-class (create d aid i) op' ops keeps e =
      let (d', f, g) = >>=-eq-ok (guarded (evaluate d) d) (λ x. ok (create x aid i)) e in
      let same = guarded-class evaluate d d' (evaluate d) keeps refl f in
      (ground (arith, g, same), ground (arith, g, same))
  guard_op-class (update aid d) op' ops keeps e =
      let (d', f, g) = >>=-eq-ok (guarded (evaluate d) d) (λ x. ok (update aid x)) e in
      let same = guarded-class evaluate d d' (evaluate d) keeps refl f in
      (ground (arith, g, same), ground (arith, g, same))
  guard_op-class (delete aid) op' ops keeps e = (ground (arith, e), ground (arith, e))
  guard_op-class (link s r t) op' ops keeps e = (ground (arith, e), ground (arith, e))
  guard_op-class (unlink s r t) op' ops keeps e = (ground (arith, e), ground (arith, e))

  creates_within-swap :
      (op op' : Operation) (ops ops' : List Operation)
      → creates_within allowed ops' ≡ creates_within allowed ops
      → creates_within allowed (op ∷ ops') ≡ creates_within allowed (op ∷ ops)
  unfolding creates_within
  creates_within-swap (create d aid i) op' ops ops' e = ground (arith, e)
  creates_within-swap (update aid d) op' ops ops' e = e
  creates_within-swap (delete aid) op' ops ops' e = e
  creates_within-swap (link s r t) op' ops ops' e = e
  creates_within-swap (unlink s r t) op' ops ops' e = e

  guard_ops-class :
      (ops ops' : List Operation)
      → KeepsClass evaluate
      → guard_ops evaluate ops ≡ ok ops'
      → (all_allowed may ops' ≡ all_allowed may ops)
        × (creates_within allowed ops' ≡ creates_within allowed ops)
  unfolding guard_ops all_allowed
  guard_ops-class [] ops' keeps e = (ground (arith, e), ground (arith, e))
  guard_ops-class (op ∷ ops) ops' keeps e =
      let (op', f, g) =
        >>=-eq-ok (guard_op evaluate op) (λ x. guard_ops evaluate ops >>= λ xs. ok (x ∷ xs)) e in
      let (rest, h, i) = >>=-eq-ok (guard_ops evaluate ops) (λ xs. ok (op' ∷ xs)) g in
      let (may_rest, within_rest) = guard_ops-class ops rest keeps h in
      let (may_op, within_op) = guard_op-class op op' rest keeps f in
      (
        ground (arith, i, may_rest, may_op),
        ap (creates_within allowed) (sym (ok_inj i))
            ∙ within_op
            ∙ creates_within-swap op op ops rest within_rest,
      )

raised_not : (b : Bool) (why : Error) (u : Unit {0}) → raise_if (not b) why ≡ ok u → b ≡ true
raised_not true why u e = refl
raised_not false why u e = cc e

declared_types :
    (allowed : List Class) (ops : List Operation) (u : Unit {0})
    → allowed ≢ []
    → (elim allowed [
      | [] ↦ ok tt
      | c ∷ cs ↦ raise_if (not (creates_within (c ∷ cs) ops)) undeclared_type
    ])
      ≡ ok u
    → creates_within allowed ops ≡ true
declared_types [] ops u some_types e = absurd (some_types refl)
declared_types (c ∷ cs) ops u some_types e =
    raised_not (creates_within (c ∷ cs) ops) undeclared_type u e

validated :
    (agent : Agent) (ops : List Operation) (ps : List Produce) (u : Unit {0})
    → validate_patch_types agent ops ≡ ok u
    → agent.produces ≡ some ps
    → allowed_types ps ≢ []
    → creates_within (allowed_types ps) ops ≡ true
unfolding validate_patch_types
validated agent ops ps u e declared some_types =
    declared_types (allowed_types ps) ops u some_types
      (sym (unfold validate_patch_types in rw declared refl) ∙ e)

authorized_all :
    (may : Verb → Option Class → Bool) (ops : List Operation) (u : Unit {0})
    → enforce_authorization (some may) ops ≡ ok u
    → all_allowed may ops ≡ true
unfolding enforce_authorization
authorized_all may ops u e = raised_not (all_allowed may ops) denied u e

-- A patch that passes the checks still passes the first two of them as it is applied: what it
-- creates is declared by its agent and the authorizer allows each operation, if the agent declares
-- some types, an authorizer is set, and each redaction of the policy keeps the class of the data.
pub checked-IsVetted :
    (cfg : Config) (ctx : Context) (r : AgentResult) (ops : List Operation) (p : PatchWork)
    (ps : List Produce) (may : Verb → Option Class → Bool) (evaluate : Model → Context → Decision)
    → checked cfg ctx r ops ≡ ok p
    → r.agent.produces ≡ some ps
    → allowed_types ps ≢ []
    → cfg.authorizer ≡ some may
    → cfg.guardrails ≡ some evaluate
    → KeepsClass (λ d. evaluate d ctx)
    → (creates_within (allowed_types ps) p.operations ≡ true)
      × (all_allowed may p.operations ≡ true)
unfolding checked
checked-IsVetted cfg ctx r ops p ps may evaluate done declared some_types authorized guarded_
      keeps =
    let (_, typed, rest) = >>=-eq-ok (validate_patch_types r.agent ops) _ done in
    let (_, allowed, rest') = >>=-eq-ok (enforce_authorization cfg.authorizer ops) _ rest in
    let (ops', redacted, made) = >>=-eq-ok (apply_guardrails cfg.guardrails ctx ops) _ rest' in
    let (same_may, same_types) =
      guard_ops-class (λ d. evaluate d ctx) may (allowed_types ps) ops ops' keeps
        (sym (unfold apply_guardrails in rw guarded_ refl) ∙ redacted) in
    (
      ap (creates_within (allowed_types ps))
            (sym (ap (λ (w : PatchWork). w.operations) (work_inj made)))
          ∙ same_types
          ∙ validated r.agent ops ps _ typed declared some_types,
      ap (all_allowed may) (sym (ap (λ (w : PatchWork). w.operations) (work_inj made)))
          ∙ same_may
          ∙ authorized_all may ops _
              (ap (λ z. enforce_authorization z ops) (sym authorized) ∙ allowed),
    )
