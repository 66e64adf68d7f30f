-- ===== src/Effects/Answers.antt =====
-- Answering a question as an effect is what `Context.resume` does.
use reactifact.Prelude.{ℕ, String, ◌≡◌, refl, some, [], string_eq}
use reactifact.Prelude.Dict.{lookup}
use reactifact.Model.{question, PendingQuestion}
use reactifact.Artifact.{Artifact}
use reactifact.Context
use reactifact.Context.{Context}
use reactifact.Runtime.{apply_op, apply_patch}
use reactifact.Effects

-- Where the artifact is the live one under its id and a question, the patch of the effect leaves the
-- context that `Context.resume` leaves.
pub resume-apply_patch :
    (fresh : ℕ → String) (cid : String) (now : ℕ) (a : Artifact) (q : PendingQuestion)
    (answer : String) (ctx : Context)
    → lookup a.id ctx.artifacts ≡ some a
    → a.data_ ≡ question q
    → (apply_patch fresh cid (Effects.to_patch [] (Effects.resume now a answer [])) ctx).context
      ≡ (Context.resume now a.id answer ctx).0
unfolding Context.resume Effects.resume Effects.update Effects.answered_copy Effects.to_patch
    Effects.add apply_patch apply_op
resume-apply_patch fresh cid now a q answer ctx live asked = rw (live, asked, Context.resume) refl
