-- ===== src/Model.antt =====
-- The data of artifacts: reactifact/interrupt.py, and the Pydantic models of an application.
-- An application's model is its class and the canonical JSON text of its fields. Wall-clock
-- fields hold the number of the moment, which the caller of an operation passes in.
use reactifact.Prelude.{
  ℕ, String, ◌≡◌, ◌↔◌, Bool, true, false, ◌&&◌, Option, arith, Eq, ◌==◌, opt_beq, opt_beq_iff,
  string_eq, nat_eq,
}
use text.Mathlib.TextEquality.{eq_iff}

-- A class of models, by its name.
pub data Class : Type 0 where
  app : String → Class
  pending_question : Class
  pending_action : Class

pub data Status : Type 0 where
  pending dispatched failed : Status

pub record PendingQuestion : Type 0 where
  pub question : String
  pub kind : String
  pub notes : String
  pub answered : Bool
  pub resolution : Option String
  pub resolved_at : Option ℕ

pub record PendingAction : Type 0 where
  pub kind : String
  pub idempotency_key : String
  pub payload : String
  pub status : Status
  pub attempts : ℕ
  pub dispatched_at : Option ℕ
  pub error : Option String

pub data Model : Type 0 where
  plain : String → String → Model
  question : PendingQuestion → Model
  action : PendingAction → Model

-- `type(data)`
unfoldable pub class_of : Model → Class
class_of (plain c fields) = app c
class_of (question q) = pending_question
class_of (action a) = pending_action

abbrev bool_beq : Bool → Bool → Bool
bool_beq true b = b
bool_beq false true = false
bool_beq false false = true

abbrev pub status_beq : Status → Status → Bool
status_beq pending pending = true
status_beq dispatched dispatched = true
status_beq failed failed = true
status_beq _ _ = false

unfoldable pub class_beq : Class → Class → Bool
class_beq (app c) (app d) = c == d
class_beq pending_question pending_question = true
class_beq pending_action pending_action = true
class_beq _ _ = false

unfoldable pub question_beq : PendingQuestion → PendingQuestion → Bool
question_beq p q =
    (p.question == q.question)
    && ((p.kind == q.kind)
        && ((p.notes == q.notes)
            && (bool_beq p.answered q.answered
                && (opt_beq p.resolution q.resolution && opt_beq p.resolved_at q.resolved_at))))

unfoldable pub action_beq : PendingAction → PendingAction → Bool
action_beq a b =
    (a.kind == b.kind)
    && ((a.idempotency_key == b.idempotency_key)
        && ((a.payload == b.payload)
            && (status_beq a.status b.status
                && ((a.attempts == b.attempts)
                    && (opt_beq a.dispatched_at b.dispatched_at && opt_beq a.error b.error)))))

-- Pydantic's `==`: the same class and the same fields.
unfoldable pub model_beq : Model → Model → Bool
unfolding question_beq action_beq
model_beq (plain c x) (plain d y) = (c == d) && (x == y)
model_beq (question p) (question q) = question_beq p q
model_beq (action a) (action b) = action_beq a b
model_beq _ _ = false

status_beq_iff : (a b : Status) → (status_beq a b ≡ true) ↔ (a ≡ b)
status_beq_iff pending b = ground arith
status_beq_iff dispatched b = ground arith
status_beq_iff failed b = ground arith

pub class_beq_iff : (a b : Class) → (class_beq a b ≡ true) ↔ (a ≡ b)
unfolding class_beq
class_beq_iff (app c) (app d) = ground (arith, eq_iff c d)
class_beq_iff (app c) b = ground arith
class_beq_iff pending_question b = ground arith
class_beq_iff pending_action b = ground arith

question_beq_iff : (p q : PendingQuestion) → (question_beq p q ≡ true) ↔ (p ≡ q)
unfolding question_beq
question_beq_iff p q = ground (
  arith,
  eq_iff p.question q.question,
  eq_iff p.kind q.kind,
  eq_iff p.notes q.notes,
  opt_beq_iff p.resolution q.resolution,
  opt_beq_iff p.resolved_at q.resolved_at,
)

action_beq_iff : (a b : PendingAction) → (action_beq a b ≡ true) ↔ (a ≡ b)
unfolding action_beq
action_beq_iff a b = ground (
  arith,
  eq_iff a.kind b.kind,
  eq_iff a.idempotency_key b.idempotency_key,
  eq_iff a.payload b.payload,
  status_beq_iff a.status b.status,
  opt_beq_iff a.dispatched_at b.dispatched_at,
  opt_beq_iff a.error b.error,
)

pub model_beq_iff : (x y : Model) → (model_beq x y ≡ true) ↔ (x ≡ y)
unfolding model_beq
model_beq_iff (plain c x) (plain d y) = ground (arith, eq_iff c d, eq_iff x y)
model_beq_iff (plain c x) y = ground arith
model_beq_iff (question p) (question q) = ground (arith, question_beq_iff p q)
model_beq_iff (question p) y = ground arith
model_beq_iff (action a) (action b) = ground (arith, action_beq_iff a b)
model_beq_iff (action a) y = ground arith

instance abbrev pub class_eq : Eq Class
class_eq = record { beq = class_beq; beq_iff = class_beq_iff }

instance abbrev pub model_eq : Eq Model
model_eq = record { beq = model_beq; beq_iff = model_beq_iff }
