-- ===== src/Policies/Guardrails/Screening.antt =====
-- What the runtime commits of data that a policy of guardrails has looked at.
use reactifact.Prelude.{
  ◌≡◌, refl, sym, ap, ◌∙◌, Bool, true, false, Option, none, some, List, [], ◌∷◌, ◌++◌, arith, ◌⊎◌,
  inl, inr, Bool-cases,
}
use reactifact.Result.{Result, ok, err, guardrail_violation}
use reactifact.Model.{Model, class_of}
use reactifact.Context.{Context}
use reactifact.Runtime
use reactifact.Runtime.{Decision, guarded}
use reactifact.Runtime.Vetting.{KeepsClass}
use reactifact.Policies.Guardrails.{
  Action, allow, violation, redact, block, flag, GuardrailDecision, Guardrail, OnViolation,
  or_block, or_flag, GuardrailPolicy, resolved, goes_on, replaced, is_replaced, passed,
  final_verdict, evaluate_from, evaluate, verdict_of,
}

module _ (ctx : Context) where
  -- Data that each guardrail in turn allows or redacts, and what becomes of them.
  pub data Passes : List Guardrail → Model → Model → Type 0 where
    through : {d : Model} → Passes [] d d
    next :
        {g : Guardrail} {gs : List Guardrail} {d d' : Model}
        → goes_on (g.check d ctx).action ≡ true
        → Passes gs (replaced (g.check d ctx) d) d'
        → Passes (g ∷ gs) d d'

  -- The first guardrail that does neither, and the data that it sees.
  pub record Stops (gs : List Guardrail) (d : Model) : Type 0 where
    pub before : List Guardrail
    pub stopper : Guardrail
    pub after : List Guardrail
    pub seen : Model
    pub split : gs ≡ before ++ stopper ∷ after
    pub passes : Passes before d seen
    pub stops : goes_on (stopper.check seen ctx).action ≡ false

  -- What is committed of the data after a verdict that ends the loop.
  abbrev pub on_stop : Action → Model → Result Model
  on_stop flag d = ok d
  on_stop _ d = err guardrail_violation

  -- What is committed of data, and why.
  abbrev pub IsScreened : OnViolation → List Guardrail → Model → Model → Result Model → Type 0
  IsScreened on gs d original outcome =
      ((d' : Model) × Passes gs d d' × (outcome ≡ ok d'))
      ⊎ ((s : Stops gs d) × (outcome
            ≡ on_stop (resolved on (s.stopper.check s.seen ctx).action) original))

  guarded-passed :
      (changed : Bool) (current original : Model)
      → (changed ≡ false → current ≡ original)
      → guarded (verdict_of (passed changed current)) original ≡ ok current
  unfolding guarded verdict_of
  guarded-passed true current original same = refl
  guarded-passed false current original same = ap ok (sym (same refl))

  on_stop-guarded :
      (on : OnViolation) (a : Action) (v : GuardrailDecision) (original : Model)
      → v.action ≡ resolved on a
      → goes_on a ≡ false
      → guarded (verdict_of v) original ≡ on_stop (resolved on a) original
  unfolding guarded verdict_of resolved
  on_stop-guarded or_block violation v original e s = rw (e, verdict_of, guarded) refl
  on_stop-guarded or_flag violation v original e s = rw (e, verdict_of, guarded) refl
  on_stop-guarded or_block block v original e s = rw (e, verdict_of, guarded) refl
  on_stop-guarded or_flag block v original e s = rw (e, verdict_of, guarded) refl
  on_stop-guarded or_block flag v original e s = rw (e, verdict_of, guarded) refl
  on_stop-guarded or_flag flag v original e s = rw (e, verdict_of, guarded) refl
  on_stop-guarded on allow v original e s = cc
  on_stop-guarded on redact v original e s = cc

  still_same :
      (d : GuardrailDecision) (changed : Bool) (current original : Model)
      → (changed ≡ false → current ≡ original)
      → is_replaced d changed ≡ false
      → replaced d current ≡ original
  still_same d changed current original same e = go d.action d.data_ e
    where
      go :
          (a : Action) (x : Option Model)
          → is_replaced (record d { action = a; data_ = x }) changed ≡ false
          → replaced (record d { action = a; data_ = x }) current ≡ original
      go allow x e' = same e'
      go violation x e' = same e'
      go block x e' = same e'
      go flag x e' = same e'
      go redact none e' = same e'
      go redact (some x) e' = cc

  evaluate_from-IsScreened :
      (on : OnViolation) (gs : List Guardrail) (changed : Bool) (current original : Model)
      → (changed ≡ false → current ≡ original)
      → IsScreened on gs current original
          (guarded (verdict_of (evaluate_from on gs ctx changed current)) original)
  unfolding evaluate_from
  evaluate_from-IsScreened on [] changed current original same =
      inl (current, through, guarded-passed changed current original same)
  evaluate_from-IsScreened on (g ∷ gs) changed current original same =
      elim (Bool-cases (goes_on (g.check current ctx).action)) [
        | inl goes ↦
            rw (goes, evaluate_from)
              (elim (evaluate_from-IsScreened on gs (is_replaced (g.check current ctx) changed)
                (replaced (g.check current ctx) current) original
                (still_same (g.check current ctx) changed current original same)) [
                  | inl (d', passes, e) ↦ inl (d', next goes passes, e)
                  | inr (s, e) ↦ inr (
                    record {
                      before = g ∷ s.before;
                      stopper = s.stopper;
                      after = s.after;
                      seen = s.seen;
                      split = ap (◌∷◌ g) s.split;
                      passes = next goes s.passes;
                      stops = s.stops;
                    },
                    e,
                  )
                ])
        | inr stops ↦ inr (
          record {
            before = [];
            stopper = g;
            after = gs;
            seen = current;
            split = refl;
            passes = through;
            stops = stops;
          },
          rw (stops, evaluate_from)
              (on_stop-guarded on (g.check current ctx).action
                (final_verdict on g (g.check current ctx) current) original
                (unfold final_verdict in refl) stops),
        )
      ]

  -- What a guardrail puts in place of data is of their class.
  abbrev pub AllKeepClass : List Guardrail → Type 0
  AllKeepClass [] = Unit
  AllKeepClass (g ∷ gs) =
      ((d : Model) → class_of (replaced (g.check d ctx) d) ≡ class_of d) × AllKeepClass gs

  on_stop_verdict :
      (on : OnViolation) (a : Action) (v : GuardrailDecision) (x : Option Model)
      → v.action ≡ resolved on a
      → goes_on a ≡ false
      → verdict_of v ≡ Runtime.redact x
      → ⊥
  unfolding verdict_of resolved
  on_stop_verdict or_block violation v x e s k = ground (arith, e, k)
  on_stop_verdict or_flag violation v x e s k = ground (arith, e, k)
  on_stop_verdict on block v x e s k = ground (arith, e, k)
  on_stop_verdict on flag v x e s k = ground (arith, e, k)
  on_stop_verdict on allow v x e s k = cc
  on_stop_verdict on redact v x e s k = cc

  evaluate_from-class :
      (on : OnViolation) (gs : List Guardrail) (changed : Bool) (current d' : Model)
      → AllKeepClass gs
      → verdict_of (evaluate_from on gs ctx changed current) ≡ Runtime.redact (some d')
      → class_of d' ≡ class_of current
  unfolding evaluate_from verdict_of
  evaluate_from-class on [] true current d' keep e = ground (arith, e)
  evaluate_from-class on [] false current d' keep e = cc
  evaluate_from-class on (g ∷ gs) changed current d' keep e =
      elim (Bool-cases (goes_on (g.check current ctx).action)) [
        | inl goes ↦
            evaluate_from-class on gs (is_replaced (g.check current ctx) changed)
              (replaced (g.check current ctx) current) d' keep.1 (ground (arith, goes, e))
            ∙ keep.0 current
        | inr stops ↦ absurd (
            on_stop_verdict on (g.check current ctx).action
              (final_verdict on g (g.check current ctx) current) (some d')
              (unfold final_verdict in refl) stops (ground (arith, stops, e)))
      ]

-- Data that a policy has looked at are committed as the guardrails in turn redacted them if each one
-- allowed or redacted what the one before it left. Else the first that did neither decides: if its
-- verdict, a violation resolved by the policy, is to flag, the data are committed as the agent made
-- them, without the redactions before, and the guardrails behind it are not asked; otherwise the
-- turn is stopped.
pub evaluate-IsScreened :
    (p : GuardrailPolicy) (d : Model) (ctx : Context)
    → IsScreened ctx p.on_violation p.guardrails d d (guarded (verdict_of (evaluate p d ctx)) d)
unfolding evaluate
evaluate-IsScreened p d ctx =
    evaluate_from-IsScreened ctx p.on_violation p.guardrails false d d (λ e. refl)

-- A policy whose guardrails put data in place only of the same class satisfies what the checks of the
-- runtime need of it.
pub evaluate-KeepsClass :
    (p : GuardrailPolicy) (ctx : Context)
    → AllKeepClass ctx p.guardrails
    → KeepsClass (λ d. verdict_of (evaluate p d ctx))
unfolding evaluate
evaluate-KeepsClass p ctx keep d d' e =
    evaluate_from-class ctx p.on_violation p.guardrails false d d' keep e
