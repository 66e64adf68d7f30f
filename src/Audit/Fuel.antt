-- ===== src/Audit/Fuel.antt =====
-- How many steps the loop of `build_report` takes: the queue with the edges that leave what is not
-- yet visited gets shorter in each.
use reactifact.Prelude.{
  ℕ, ◌+◌, ◌≤◌, String, ◌≡◌, refl, false, none, some, List, [], ◌∷◌, ◌++◌, arith, if◌then◌else◌,
  string_eq, length, length-append, ==_iff,
}
use reactifact.Prelude.Sets.{contains, add, contains-add}
use reactifact.Artifact.{Artifact}
use reactifact.Operations.{Relation}
use reactifact.RelationGraph.{Graph, relations, selects}
use reactifact.Context.{Context, get}
use reactifact.Audit.{followed_edges, next_artifacts, out_edges}

-- The edges that leave what is not visited.
abbrev pub unvisited : List String → Graph → ℕ
unvisited v [] = 0
unvisited v (r ∷ g) = let rest = unvisited v g in if contains r.source_id v then rest else rest + 1

unvisited-le-length : (v : List String) (g : Graph) → unvisited v g ≤ length g
unvisited-le-length v [] = omega arith
unvisited-le-length v (r ∷ g) = ground (arith, unvisited-le-length v g)

length-next_artifacts :
    (v : List String) (rs : List Relation) (ctx : Context)
    → length (next_artifacts v rs ctx) ≤ length rs
unfolding next_artifacts get
length-next_artifacts v [] ctx = omega arith
length-next_artifacts v (r ∷ rs) ctx = ground (arith, length-next_artifacts v rs ctx)

length-followed_edges :
    (followed : List String) (rs : List Relation) → length (followed_edges followed rs) ≤ length rs
unfolding followed_edges
length-followed_edges followed [] = omega arith
length-followed_edges followed (r ∷ rs) = ground (arith, length-followed_edges followed rs)

unvisited-add :
    (x : String) (v : List String) (g : Graph)
    → contains x v ≡ false
    → unvisited (add x v) g + length (relations (some x) none none g) ≡ unvisited v g
unfolding relations selects
unvisited-add x v [] new = refl
unvisited-add x v (r ∷ g) new = ground (
  arith,
  unvisited-add x v g new,
  contains-add r.source_id x v,
  new,
  ==_iff r.source_id x,
  ==_iff x r.source_id,
)

-- Each visit makes the bound on the steps that are left smaller.
pub visit_descends :
    (followed : List String) (x : String) (v : List String) (queue : List Artifact) (ctx : Context)
    → contains x v ≡ false
    → length (queue ++ next_artifacts (add x v) (out_edges followed x ctx) ctx)
        + unvisited (add x v) ctx.relations
      ≤ length queue + unvisited v ctx.relations
unfolding out_edges
visit_descends followed x v queue ctx new = omega (
  arith,
  length-append queue (next_artifacts (add x v) (out_edges followed x ctx) ctx),
  length-next_artifacts (add x v) (out_edges followed x ctx) ctx,
  length-followed_edges followed (relations (some x) none none ctx.relations),
  unvisited-add x v ctx.relations new,
)
