-- ===== src/Effects.antt =====
-- reactifact/effects.py and reactifact/patches.py: what a produce plans, as the list of operations of
-- one patch. `fresh` is the id that the factory or `_auto_id` gives, and `lower_name` the name of a
-- class in lower case. A patch is the list of its operations; the slot of the running produce, a
-- context variable, is the list that is passed on.
pub mod Once
pub mod Answers
use Prim.Native.String.{◌++◌ as ◌⊕◌}
use reactifact.Prelude.{
  ℕ, String, Bool, true, false, Option, none, some, or_else, List, [], ◌∷◌, ◌++◌, ◌==◌,
  if◌then◌else◌, string_eq,
}
use reactifact.Model.{
  Model, question, action, Class, class_of, PendingQuestion, PendingAction, pending,
}
use reactifact.Artifact.{Artifact}
use reactifact.Operations
use reactifact.Operations.{Operation}
use reactifact.Context.{Context, get}

-- `Handle`, by its id, and its data
pub record Handle : Type 0 where
  pub id : String
  pub data_ : Model

-- `str | Artifact | Handle`
pub data Target : Type 0 where
  by_id : String → Target
  artifact : Artifact → Target
  handle : Handle → Target

-- `_id_of`
unfoldable pub id_of : Target → String
id_of (by_id i) = i
id_of (artifact a) = a.id
id_of (handle h) = h.id

abbrev pub Planned : Type 0
Planned = List Operation

unfoldable pub add : Operation → Planned → Planned
add op ops = ops ++ op ∷ []

unfoldable pub create : String → Model → Option String → Planned → Planned × Handle
unfolding add
create fresh d given ops =
    let i = or_else given fresh in
    (add (Operations.create d none (some i)) ops, record { id = i; data_ = d })

unfoldable pub create_once : Model → String → Context → Planned → Planned × Option Handle
unfolding create get
create_once d i ctx ops = elim (get i ctx) [
  | some a ↦ (ops, none)
  | none ↦ let (ops', h) = create i d (some i) ops in (ops', some h)
]

-- `x or y` of a text that may be missing
abbrev pub text_or : Option String → String → String
text_or none y = y
text_or (some x) y = if x == "" then y else x

abbrev pub derived_id : (Class → String) → Target → Model → Option String → String
derived_id lower_name source d prefix =
    text_or prefix (lower_name (class_of d)) ⊕ (":" ⊕ id_of source)

unfoldable pub create_once_from :
    (Class → String) → Target → Model → Option String → Context → Planned → Planned × Option Handle
unfolding create_once id_of class_of
create_once_from lower_name source d prefix ctx ops =
    create_once d (derived_id lower_name source d prefix) ctx ops

unfoldable pub upsert : String → Model → String → Planned → Planned × Handle
unfolding create
upsert fresh d i ops = create fresh d (some i) ops

-- `update`; `copied` is `model_copy(update=fields)`
unfoldable pub update : Artifact → (Model → Model) → Planned → Planned
unfolding add
update a copied ops = add (Operations.update a.id (copied a.data_)) ops

unfoldable pub delete : Target → Planned → Planned
unfolding add id_of
delete t ops = add (Operations.delete (id_of t)) ops

unfoldable pub link : Target → String → Target → Planned → Planned
unfolding add id_of
link s relation t ops = add (Operations.link (id_of s) relation (id_of t)) ops

abbrev optional_id : Option Target → Option String
optional_id none = none
optional_id (some t) = some (id_of t)

unfoldable pub unlink : Target → Option String → Option Target → Planned → Planned
unfolding add id_of
unlink s relation t ops = add (Operations.unlink (id_of s) relation (optional_id t)) ops

unfoldable pub ask : String → String → String → String → Option String → Planned → Planned × Handle
unfolding create
ask fresh text kind notes given ops =
    create fresh
      (question (record {
        question = text;
        kind = kind;
        notes = notes;
        answered = false;
        resolution = none;
        resolved_at = none;
      }))
      given ops

abbrev pub action_id : Option String → String → String
action_id given key = text_or given ("action:" ⊕ key)

unfoldable pub act :
    String → String → String → Option String → Context → Planned → Planned × Option Handle
unfolding create_once
act kind key payload given ctx ops =
    create_once
      (action (record {
        kind = kind;
        idempotency_key = key;
        payload = payload;
        status = pending;
        attempts = 0;
        dispatched_at = none;
        error = none;
      }))
      (action_id given key) ctx ops

-- The fields that `resume` sets; only a question has them.
unfoldable pub answered_copy : ℕ → String → Model → Model
answered_copy now answer (question q) =
    question (record q { answered = true; resolution = some answer; resolved_at = some now })
answered_copy now answer d = d

unfoldable pub resume : ℕ → Artifact → String → Planned → Planned
unfolding update answered_copy
resume now a answer ops = update a (answered_copy now answer) ops

-- `Patch.merge`
unfoldable pub merge : Planned → List (Option Planned) → Planned
merge ops [] = ops
merge ops (none ∷ ps) = merge ops ps
merge ops (some p ∷ ps) = merge (ops ++ p) ps

unfoldable pub to_patch : Planned → Planned → Planned
unfolding add
to_patch patch [] = patch
to_patch patch (op ∷ ops) = to_patch (add op patch) ops
