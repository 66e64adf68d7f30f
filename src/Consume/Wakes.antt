-- ===== src/Consume/Wakes.antt =====
-- What wakes an agent is among its inputs.
use mathlib.Core.Option.{some-injective}
use mathlib.Core.Path.{subst}
use mathlib.Core.List.{Mem, mem-cons_self, mem-cons_of_mem, mem-append_right, mem-append_left}
use reactifact.Prelude.{
  String, ◌≡◌, ◌≢◌, refl, sym, ap, ◌∙◌, Bool, true, Option, ◌&&◌, some, List, [], ◌∷◌, ◌++◌, arith,
  keep_if, string_eq, Bool-cases, Option-cases, inl, inr, ◌⊎◌, ◌==◌,
}
use reactifact.Prelude.Dict.{Dict, lookup, values}
use reactifact.Model.{Class, class_of, class_eq}
use reactifact.Artifact.{Artifact}
use reactifact.Context.{Context, Event, EventType, get}
use reactifact.Context.TypeIndex.{IsIndexed}
use reactifact.Context.Listing.{list_artifacts_scan, is_instance}
use reactifact.Trigger.{Trigger, holds, matches, type_matches, conditions_hold}
use reactifact.Runtime.{matching_triggers}
use reactifact.Consume.{
  Consume, trigger_on, triggers_on, to_triggers, collect, triggers_from, gather, ContextBuilder,
  built, inputs_from,
}

mem-kept :
    (p : Artifact → Bool) (d : Dict String Artifact) (k : String) (a : Artifact)
    → lookup k d ≡ some a
    → p a ≡ true
    → Mem a (keep_if p (values d))
unfolding lookup
mem-kept p [] k a e h = absurd (ground (arith, e))
mem-kept p ((j, b) ∷ d) k a e h = elim (Bool-cases (j == k)) [
  | inl same ↦
      let one : b ≡ a = some-injective b a (rw same at e) in
      let kept : p b ≡ true = ap p one ∙ h in
      rw kept (subst (λ x. Mem a (x ∷ keep_if p (values d))) (sym one) mem-cons_self)
  | inr other ↦
      let rest : Mem a (keep_if p (values d)) = mem-kept p d k a (rw other at e) h in
      elim (Bool-cases (p b)) [
        | inl yes_b ↦ rw yes_b (mem-cons_of_mem b rest)
        | inr no_b ↦ rw no_b rest
      ]
]

keep_if-keep_if :
    (p q : Artifact → Bool) (xs : List Artifact)
    → keep_if q (keep_if p xs) ≡ keep_if (λ x. p x && q x) xs
keep_if-keep_if p q [] = refl
keep_if-keep_if p q (x ∷ xs) = ground (arith, keep_if-keep_if p q xs)

-- A trigger of a consume that fires on an artifact is of its type, and its condition holds.
trigger_on-Fits :
    (issubclass : Class → Class → Bool) (c : Consume) (on : EventType) (e : Event) (a : Artifact)
    (ctx : Context)
    → ((k : Class) → issubclass k k ≡ true)
    → lookup e.artifact_id ctx.artifacts ≡ some a
    → e.artifact_type ≡ class_of a.data_
    → matches issubclass (trigger_on c on) e ctx ≡ true
    → (is_instance issubclass c.artifact_type a ≡ true) × (holds c.condition a ≡ true)
unfolding matches type_matches conditions_hold get
trigger_on-Fits issubclass c on e a ctx same found typed m = ground (
  arith,
  class_eq.beq_iff e.artifact_type c.artifact_type,
  same c.artifact_type,
  found,
  ap (λ k. issubclass k c.artifact_type) typed,
  typed,
  m,
)

List-cases : {A : Type 0} (xs : List A) → (xs ≡ []) ⊎ (xs ≢ [])
List-cases [] = inl refl
List-cases (x ∷ xs) = inr (λ e. cc e)

-- An agent's test of several triggers, one consume after another.
matching_triggers-append :
    (issubclass : Class → Class → Bool) (ts us : List Trigger) (e : Event) (ctx : Context)
    → matching_triggers issubclass (ts ++ us) e ctx
      ≡ matching_triggers issubclass ts e ctx ++ matching_triggers issubclass us e ctx
unfolding matching_triggers
matching_triggers-append issubclass [] us e ctx = refl
matching_triggers-append issubclass (t ∷ ts) us e ctx =
    ground (arith, matching_triggers-append issubclass ts us e ctx)

module _ (issubclass : Class → Class → Bool) (same : (k : Class) → issubclass k k ≡ true)
    (ctx : Context) (indexed : IsIndexed ctx) (e : Event) (a : Artifact)
    (found : lookup e.artifact_id ctx.artifacts ≡ some a)
    (typed : e.artifact_type ≡ class_of a.data_) where
  Fits : (c : Consume) → Type 0
  Fits c = (is_instance issubclass c.artifact_type a ≡ true) × (holds c.condition a ≡ true)

  triggers_on-Fits :
      (c : Consume) (es : List EventType)
      → matching_triggers issubclass (triggers_on c es) e ctx ≢ []
      → Fits c
  unfolding matching_triggers Fits
  triggers_on-Fits c [] fires = absurd (fires refl)
  triggers_on-Fits c (on ∷ es) fires =
      elim (Bool-cases (matches issubclass (trigger_on c on) e ctx)) [
        | inl m ↦ trigger_on-Fits issubclass c on e a ctx same found typed m
        | inr m ↦ triggers_on-Fits c es (rw m at fires)
      ]

  collect-Fits : (c : Consume) → Fits c → Mem a (collect issubclass c ctx)
  unfolding collect Fits
  collect-Fits c h = elim (Option-cases c.condition) [
    | inl none_given ↦
        rw (none_given, collect, list_artifacts_scan issubclass c.artifact_type ctx indexed)
          (mem-kept (is_instance issubclass c.artifact_type) ctx.artifacts e.artifact_id a found
            h.0)
    | inr (p, given) ↦
        rw
          (
            given,
            collect,
            list_artifacts_scan issubclass c.artifact_type ctx indexed,
            keep_if-keep_if (is_instance issubclass c.artifact_type) p (values ctx.artifacts),
          )
          (mem-kept (λ x. is_instance issubclass c.artifact_type x && p x) ctx.artifacts
            e.artifact_id a found (ground (arith, h.0, h.1, given)))
  ]

  wakes-Fits : (c : Consume) → matching_triggers issubclass (to_triggers c) e ctx ≢ [] → Fits c
  unfolding to_triggers matching_triggers
  wakes-Fits c fires = elim (Bool-cases c.wakes) [
    | inl w ↦ triggers_on-Fits c c.event_types (rw w at fires)
    | inr w ↦ absurd ((rw w at fires) refl)
  ]

  gather-wakes :
      (cs : List Consume)
      → matching_triggers issubclass (triggers_from cs) e ctx ≢ []
      → Mem a (gather issubclass cs ctx)
  unfolding triggers_from gather matching_triggers
  gather-wakes [] fires = absurd (fires refl)
  gather-wakes (c ∷ cs) fires =
      elim (List-cases (matching_triggers issubclass (to_triggers c) e ctx)) [
        | inl idle ↦ mem-append_right (collect issubclass c ctx) (
            gather-wakes cs (λ quiet. fires (
              matching_triggers-append issubclass (to_triggers c) (triggers_from cs) e ctx
              ∙ rw (idle, quiet))))
        | inr fires_c ↦
            mem-append_left (gather issubclass cs ctx) (collect-Fits c (wakes-Fits c fires_c))
      ]

  -- In a context whose type index is in order, if the triggers of what an agent consumes fire on an
  -- event, whose artifact is in the context with the event's type, and the context builder, where
  -- there is one, drops this artifact from no inputs, then it is among the inputs that the agent
  -- collects. What the agent consumes are plain consumes, not correlated ones.
  pub inputs_from-wakes :
      (builder : Option ContextBuilder) (cs : List Consume)
      → ((inputs : List Artifact) → Mem a inputs → Mem a (built builder ctx inputs))
      → matching_triggers issubclass (triggers_from cs) e ctx ≢ []
      → Mem a (inputs_from issubclass builder cs ctx)
  unfolding triggers_from inputs_from matching_triggers
  inputs_from-wakes builder [] keeps fires = absurd (fires refl)
  inputs_from-wakes builder (c ∷ cs) keeps fires =
      keeps (gather issubclass (c ∷ cs) ctx) (gather-wakes (c ∷ cs) fires)
