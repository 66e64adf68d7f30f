-- ===== src/Context/Inbox.antt =====
-- Questions to a human, actions that await dispatch, and the event queue. An application has no
-- subclasses of `PendingQuestion` and `PendingAction`, so a test of the class is one for equality.
use reactifact.Prelude.{
  ℕ, ◌+◌, String, Bool, true, false, not, Option, none, some, List, [], ◌∷◌, ◌==◌, if◌then◌else◌,
  string_eq, keep_if, nat_eq,
}
use reactifact.Prelude.Dict.{lookup}
use reactifact.Prelude.Sets.{contains}
use reactifact.Model.{
  question, action, Class, pending_question, pending_action, class_eq, PendingAction, pending,
  dispatched, failed, status_beq,
}
use reactifact.Artifact.{Artifact}
use reactifact.Context.State.{Context, Event}
use reactifact.Context.Store.{create, update}
use reactifact.Context.Query.{list_artifacts}

abbrev pub same_class : Class → Class → Bool
same_class c d = c == d

unfoldable pub is_unanswered : Artifact → Bool
is_unanswered a = elim a.data_ [ question q ↦ not q.answered | _ ↦ false ]

unfoldable pub is_pending : Artifact → Bool
is_pending a = elim a.data_ [ action x ↦ status_beq x.status pending | _ ↦ false ]

-- `interrupt`
unfoldable pub interrupt : String → String → String → String → Context → Context × Artifact
unfolding create
interrupt fresh text kind notes ctx =
    create fresh
      (question (record {
        question = text;
        kind = kind;
        notes = notes;
        answered = false;
        resolution = none;
        resolved_at = none;
      }))
      none ctx

unfoldable pub pending_questions : Context → List Artifact
unfolding list_artifacts is_unanswered
pending_questions ctx =
    keep_if is_unanswered (list_artifacts same_class (some pending_question) ctx)

-- `resume`; `now` is the moment of the answer.
unfoldable pub resume : ℕ → String → String → Context → Context × Option Artifact
unfolding update
resume now qid answer ctx = elim (lookup qid ctx.artifacts) [
  | none ↦ (ctx, none)
  | some a ↦ elim a.data_ [
    | question q ↦
        update qid
          (question
            (record q { answered = true; resolution = some answer; resolved_at = some now }))
          ctx
    | _ ↦ (ctx, none)
  ]
]

unfoldable pub pending_actions : Context → List Artifact
unfolding list_artifacts is_pending
pending_actions ctx = keep_if is_pending (list_artifacts same_class (some pending_action) ctx)

-- The shape that `mark_dispatched`, `mark_failed` and `retry_action` share: an update of an action.
unfoldable pub revise_action :
    (PendingAction → PendingAction) → String → Context → Context × Option Artifact
unfolding update
revise_action f aid ctx = elim (lookup aid ctx.artifacts) [
  | none ↦ (ctx, none)
  | some a ↦ elim a.data_ [ action x ↦ update aid (action (f x)) ctx | _ ↦ (ctx, none) ]
]

unfoldable pub mark_dispatched : ℕ → String → Context → Context × Option Artifact
unfolding revise_action
mark_dispatched now =
    revise_action λ x. record x { status = dispatched; dispatched_at = some now; error = none }

unfoldable pub mark_failed : Option String → String → Context → Context × Option Artifact
unfolding revise_action
mark_failed message =
    revise_action λ x. record x { status = failed; error = message; attempts = x.attempts + 1 }

unfoldable pub retry_action : String → Context → Context × Option Artifact
unfolding revise_action
retry_action = revise_action λ x. record x { status = pending; error = none; attempts = 0 }

unfoldable pub drain_events : Context → Context × List Event
drain_events ctx = (record ctx { events = [] }, ctx.events)

unfoldable pub pending_events : Context → List Event
pending_events ctx = ctx.events

abbrev pub idents : List Event → List ℕ
idents [] = []
idents (e ∷ es) = e.ident ∷ idents es

-- `[event for event in self._events if id(event) not in consumed]`
unfoldable pub unconsumed : List ℕ → List Event → List Event
unconsumed consumed [] = []
unconsumed consumed (e ∷ es) =
    let rest = unconsumed consumed es in if contains e.ident consumed then rest else e ∷ rest

unfoldable pub consume_events : List Event → Context → Context
unfolding unconsumed
consume_events [] ctx = ctx
consume_events (e ∷ es) ctx = record ctx { events = unconsumed (idents (e ∷ es)) ctx.events }
