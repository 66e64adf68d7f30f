-- ===== src/Runtime/Delivery.antt =====
-- What the outbox sends: every pending action once, and none is left when no exception ends it.
use text.Mathlib.TextEquality.{eq_iff}
use reactifact.Prelude.{
  ℕ, String, ◌≡◌, refl, Bool, true, false, Option, none, some, List, [], ◌∷◌, arith, ◌==◌,
  if◌then◌else◌, string_eq, inl, inr, Option-cases, keep_if, ==_refl, ap,
}
use reactifact.Prelude.Dict.{Dict, lookup, values, IsDistinct}
use reactifact.Prelude.Sets.{contains}
use reactifact.Result.{ok}
use reactifact.Model.{
  Model, plain, question, action, pending_action, class_of, class_eq, PendingAction, dispatched,
  pending, status_beq,
}
use reactifact.Artifact.{Artifact}
use reactifact.Context.{
  Context, is_pending, pending_actions, revise_action, mark_dispatched, same_class, list_artifacts,
  update,
}
use reactifact.Context.TypeIndex.{IsIndexed}
use reactifact.Context.Listing.{is_instance, list_artifacts_scan}
use reactifact.Context.Staleness.{IsKeyed}
use reactifact.Runtime.Outbox.{Dispatcher, drain, drain_actions}
use reactifact.Runtime.Replay.{data_at, update_data}

abbrev pending_data : Option Model → Bool
pending_data (some (action x)) = status_beq x.status pending
pending_data (some (plain c t)) = false
pending_data (some (question q)) = false
pending_data none = false

-- Whether an action that awaits dispatch stands under the id.
abbrev pub pending_at : String → Context → Bool
pending_at k ctx = pending_data (data_at k ctx.artifacts)

abbrev pub artifact_ids : List Artifact → List String
artifact_ids [] = []
artifact_ids (a ∷ as') = a.id ∷ artifact_ids as'

revise_action_action :
    (f : PendingAction → PendingAction) (aid : String) (x : PendingAction) (a : Artifact)
    (ctx : Context)
    → lookup aid ctx.artifacts ≡ some a
    → a.data_ ≡ action x
    → revise_action f aid ctx ≡ update aid (action (f x)) ctx
unfolding revise_action
revise_action_action f aid x a ctx e d = ground (arith, e, d)

marked :
    (now : ℕ) (aid k : String) (ctx : Context) (a : Artifact)
    → lookup aid ctx.artifacts ≡ some a
    → (d : Model) → a.data_ ≡ d
    → pending_at k (mark_dispatched now aid ctx).0 ≡ (if aid == k then false else pending_at k ctx)
marked now aid k ctx a e (plain c t) p =
    unfold mark_dispatched revise_action in ground (arith, e, p, eq_iff aid k)
marked now aid k ctx a e (question q) p =
    unfold mark_dispatched revise_action in ground (arith, e, p, eq_iff aid k)
marked now aid k ctx a e (action x) p =
    let sent : PendingAction = record x {
      status = dispatched;
      dispatched_at = some now;
      error = none;
    } in
    unfold mark_dispatched in
    rw (revise_action_action _ aid x a ctx e p)
      (ground (arith, (update_data aid (action sent) ctx (ground (arith, e))).0 k))

-- Marking an action as dispatched takes it off the pending ones, and no other.
pub pending_at-mark_dispatched :
    (now : ℕ) (aid k : String) (ctx : Context)
    → pending_at k (mark_dispatched now aid ctx).0 ≡ (if aid == k then false else pending_at k ctx)
pending_at-mark_dispatched now aid k ctx = elim (Option-cases (lookup aid ctx.artifacts)) [
  | inl e ↦
      unfold mark_dispatched revise_action in
      rw (e, revise_action) (ground (arith, e, eq_iff aid k))
  | inr (a, e) ↦ marked now aid k ctx a e a.data_ refl
]

drain-pending :
    (perform : Dispatcher) (now : ℕ) (as' : List Artifact) (ctx : Context)
    → (drain perform now as' ctx).outcome ≡ ok tt
    → ((drain perform now as' ctx).sent ≡ artifact_ids as')
      × ((k : String)
          → pending_at k (drain perform now as' ctx).context
            ≡ (if contains k (artifact_ids as') then false else pending_at k ctx))
unfolding drain contains
drain-pending perform now [] ctx done = (refl, λ k. refl)
drain-pending perform now (a ∷ as') ctx done = elim (Option-cases (perform ctx a)) [
  | inr (why, e) ↦ absurd (ground (arith, e, done))
  | inl e ↦
      let (sent, left) =
        drain-pending perform now as' (mark_dispatched now a.id ctx).0 (ground (arith, e, done)) in
      rw (e, drain)
        (ap (◌∷◌ a.id) sent, λ k. ground (arith, left k, pending_at-mark_dispatched now a.id k ctx))
]

pending_data-is_pending :
    (a : Artifact) (d : Model) → a.data_ ≡ d → is_pending a ≡ pending_data (some a.data_)
unfolding is_pending
pending_data-is_pending a (plain c t) e = rw (e, is_pending) refl
pending_data-is_pending a (question q) e = rw (e, is_pending) refl
pending_data-is_pending a (action x) e = rw (e, is_pending) refl

is_instance-is_pending :
    (a : Artifact) (d : Model)
    → a.data_ ≡ d
    → is_pending a ≡ true
    → is_instance same_class pending_action a ≡ true
unfolding is_pending class_of
is_instance-is_pending a (plain c t) e p = absurd (ground (arith, e, p))
is_instance-is_pending a (question q) e p = absurd (ground (arith, e, p))
is_instance-is_pending a (action x) e p = rw e (==_refl pending_action)

-- An id under which a pending action stands is among those that `pending_actions` lists.
listed :
    (k : String) (d : Dict String Artifact)
    → ((j : String) (a : Artifact) → lookup j d ≡ some a → a.id ≡ j)
    → IsDistinct d
    → pending_data (data_at k d) ≡ true
    → contains k (
        artifact_ids
          (keep_if is_pending (keep_if (is_instance same_class pending_action) (values d))))
      ≡ true
unfolding contains lookup
listed k [] keyed distinct p = cc
listed k ((j, a) ∷ d) keyed distinct p = ground (
  arith,
  p,
  pending_data-is_pending a a.data_ refl,
  is_instance-is_pending a a.data_ refl,
  keyed j a (ground (arith, ==_refl j)),
  eq_iff j k,
  eq_iff a.id k,
  listed k d (λ i b e. keyed i b (ground (arith, e, eq_iff j i, distinct.0))) distinct.1,
)

-- In a context with its index and ids in order, a drain that no exception ends has called the
-- dispatcher with every pending action, once and in the order of the store, and afterwards no
-- action is pending.
pub drain_actions-delivers :
    (perform : Dispatcher) (now : ℕ) (ctx : Context)
    → IsIndexed ctx
    → IsKeyed ctx
    → (drain_actions (some perform) now ctx).outcome ≡ ok tt
    → ((drain_actions (some perform) now ctx).sent ≡ artifact_ids (pending_actions ctx))
      × ((k : String) → pending_at k (drain_actions (some perform) now ctx).context ≡ false)
unfolding drain_actions
drain_actions-delivers perform now ctx indexed keyed done =
    let (sent, left) = drain-pending perform now (pending_actions ctx) ctx done in
    (
      sent,
      λ k. ground (
        arith,
        left k,
        listed k ctx.artifacts keyed.keyed indexed.artifacts_distinct,
        ap (λ (as' : List Artifact). contains k (artifact_ids (keep_if is_pending as')))
            (list_artifacts_scan same_class pending_action ctx indexed),
        scanned,
      ),
    )
  where
    scanned :
        pending_actions ctx
        ≡ keep_if is_pending (list_artifacts same_class (some pending_action) ctx)
    scanned = unfold pending_actions in refl
