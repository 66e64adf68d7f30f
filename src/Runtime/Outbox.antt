-- ===== src/Runtime/Outbox.antt =====
-- The outbox: `_drain_actions` performs every committed action that is pending.
use reactifact.Prelude.{
  ℕ, String, Bool, true, false, Option, none, some, List, [], ◌∷◌, is_some, ◌&&◌, not,
}
use reactifact.Result.{Result, ok, err, stopped}
use reactifact.Artifact.{Artifact}
use reactifact.Context.{Context, pending_actions, mark_dispatched, mark_failed}

-- The application's dispatcher: `none` when the action is performed, else the text of the
-- exception. It may not change the context.
abbrev pub Dispatcher : Type 0
Dispatcher = Context → Artifact → Option String

-- The loop over the actions: the context goes on also when an exception ends it. The last part
-- lists the ids that the dispatcher was called with.
pub record Drained : Type 0 where
  pub context : Context
  pub outcome : Result (Unit {0})
  pub sent : List String

unfoldable pub drain : Dispatcher → ℕ → List Artifact → Context → Drained
unfolding mark_dispatched mark_failed
drain perform now [] ctx = record { context = ctx; outcome = ok tt; sent = [] }
drain perform now (a ∷ as') ctx = elim (perform ctx a) [
  | some why ↦ record {
    context = (mark_failed (some why) a.id ctx).0;
    outcome = err (stopped why);
    sent = a.id ∷ [];
  }
  | none ↦
      let rest = drain perform now as' (mark_dispatched now a.id ctx).0 in
      record { context = rest.context; outcome = rest.outcome; sent = a.id ∷ rest.sent }
]

unfoldable pub drain_actions : Option Dispatcher → ℕ → Context → Drained
unfolding drain pending_actions
drain_actions none now ctx = record { context = ctx; outcome = ok tt; sent = [] }
drain_actions (some perform) now ctx = drain perform now (pending_actions ctx) ctx

unfoldable pub is_empty {ℓ} : {A : Type ℓ} → List A → Bool
is_empty [] = true
is_empty (x ∷ xs) = false

unfoldable pub has_pending_actions : Option Dispatcher → Context → Bool
unfolding pending_actions is_empty
has_pending_actions dispatcher ctx = is_some dispatcher && not (is_empty (pending_actions ctx))
