-- ===== src/Runtime/Answers.antt =====
-- reactifact/context.py: `resume`, which answers a question.
use text.Mathlib.TextEquality.{eq_iff}
use reactifact.Prelude.{
  ℕ, String, ◌≡◌, refl, Bool, true, false, not, Option, none, some, arith, ◌==◌, if◌then◌else◌,
  string_eq, inl, inr, Option-cases,
}
use reactifact.Prelude.Dict.{lookup}
use reactifact.Model.{Model, plain, question, action, PendingQuestion}
use reactifact.Artifact.{Artifact}
use reactifact.Context.{Context, resume}
use reactifact.Runtime.Replay.{data_at, update_data}

-- Whether the data is a question without an answer.
abbrev pub open_question : Option Model → Bool
open_question (some (question q)) = not q.answered
open_question (some (plain c t)) = false
open_question (some (action x)) = false
open_question none = false

answered :
    (now : ℕ) (qid answer : String) (ctx : Context) (k : String) (a : Artifact) (d : Model)
    → lookup qid ctx.artifacts ≡ some a
    → a.data_ ≡ d
    → open_question (data_at k (resume now qid answer ctx).0.artifacts)
      ≡ (if qid == k then false else open_question (data_at k ctx.artifacts))
unfolding resume
answered now qid answer ctx k a (plain c t) e p = ground (arith, e, p, eq_iff qid k)
answered now qid answer ctx k a (action x) e p = ground (arith, e, p, eq_iff qid k)
answered now qid answer ctx k a (question q) e p =
    let said : PendingQuestion = record q {
      answered = true;
      resolution = some answer;
      resolved_at = some now;
    } in
    rw (e, p, resume)
      (ground (arith, (update_data qid (question said) ctx (ground (arith, e))).0 k))

-- After `resume` no question stands open under the id that was answered, and under every other id
-- one stands open if and only if one did before.
open_question-resume :
    (now : ℕ) (qid answer : String) (ctx : Context) (k : String)
    → open_question (data_at k (resume now qid answer ctx).0.artifacts)
      ≡ (if qid == k then false else open_question (data_at k ctx.artifacts))
open_question-resume now qid answer ctx k = elim (Option-cases (lookup qid ctx.artifacts)) [
  | inl e ↦ unfold resume in ground (arith, e, eq_iff qid k)
  | inr (a, e) ↦ answered now qid answer ctx k a a.data_ e refl
]
