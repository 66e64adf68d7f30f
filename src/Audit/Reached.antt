-- ===== src/Audit/Reached.antt =====
-- What the loop of `build_report` visits: the invariant of the visited ids and of the queue, which
-- ends in exactly the artifacts that the followed edges lead to.
use reactifact.Prelude.{
  String, ◌≡◌, refl, true, ◌&&◌, ◌||◌, none, some, List, [], ◌∷◌, arith, ◌==◌, inl, inr, Bool-cases,
  Option-cases, ==_refl, ==_iff, string_eq,
}
use reactifact.Prelude.Dict.{lookup}
use reactifact.Prelude.Sets.{contains}
use reactifact.Artifact.{Artifact}
use reactifact.Operations.{Relation, relation_eq}
use reactifact.RelationGraph.{relations, selects}
use reactifact.RelationGraph.Laws.{contains-relations}
use reactifact.Context.{Context, get}
use reactifact.Audit.{followed_edges, next_artifacts, out_edges}

abbrev pub ids : List Artifact → List String
ids [] = []
ids (a ∷ as') = a.id ∷ ids as'

-- What the followed edges lead to from an id.
pub data Reaches (followed : List String) (ctx : Context) (origin : String) : String → Type 0 where
  here : Reaches followed ctx origin origin
  along :
      {s : String} (r : Relation) (t : Artifact)
      → Reaches followed ctx origin s
      → contains r ctx.relations ≡ true
      → r.source_id ≡ s
      → contains r.relation followed ≡ true
      → lookup r.target_id ctx.artifacts ≡ some t
      → Reaches followed ctx origin t.id

contains-followed_edges :
    (followed : List String) (r : Relation) (rs : List Relation)
    → contains r (followed_edges followed rs) ≡ (contains r rs && contains r.relation followed)
unfolding followed_edges contains
contains-followed_edges followed r [] = refl
contains-followed_edges followed r (x ∷ rs) =
    ground (arith, contains-followed_edges followed r rs, ==_iff x r)

pub contains-out_edges :
    (followed : List String) (aid : String) (ctx : Context) (r : Relation)
    → contains r (out_edges followed aid ctx)
      ≡ (contains r ctx.relations && ((r.source_id == aid) && contains r.relation followed))
unfolding out_edges selects
contains-out_edges followed aid ctx r = ground (
  arith,
  contains-followed_edges followed r (relations (some aid) none none ctx.relations),
  contains-relations (some aid) none none ctx.relations r,
)

-- A live target of an edge is visited or comes into the queue.
pub contains-next_artifacts :
    (visited : List String) (r : Relation) (t : Artifact) (rs : List Relation) (ctx : Context)
    → lookup r.target_id ctx.artifacts ≡ some t
    → contains r rs ≡ true
    → (contains t.id visited || contains t.id (ids (next_artifacts visited rs ctx))) ≡ true
unfolding next_artifacts get contains
contains-next_artifacts visited r t [] ctx live e = cc
contains-next_artifacts visited r t (x ∷ rs) ctx live e =
    ground (arith, contains-next_artifacts visited r t rs ctx live, live, ==_iff x r, ==_refl t.id)

pub record Next (x : String) (rs : List Relation) (ctx : Context) : Type 0 where
  pub edge : Relation
  pub target : Artifact
  pub listed : contains edge rs ≡ true
  pub live : lookup edge.target_id ctx.artifacts ≡ some target
  pub same : target.id ≡ x

-- What comes into the queue is the live target of an edge.
pub next_artifacts-Next :
    (visited : List String) (x : String) (rs : List Relation) (ctx : Context)
    → contains x (ids (next_artifacts visited rs ctx)) ≡ true
    → Next x rs ctx
unfolding next_artifacts get contains
next_artifacts-Next visited x [] ctx e = cc
next_artifacts-Next visited x (r ∷ rs) ctx e =
    elim (Option-cases (lookup r.target_id ctx.artifacts)) [
      | inl gone ↦ later (next_artifacts-Next visited x rs ctx (ground (arith, gone, e)))
      | inr (t, live) ↦ elim (Bool-cases (contains t.id visited)) [
        | inl old ↦ later (next_artifacts-Next visited x rs ctx (ground (arith, live, old, e)))
        | inr new ↦ elim (Bool-cases (t.id == x)) [
          | inl here_ ↦ record {
            edge = r;
            target = t;
            listed = ground (arith, ==_refl r);
            live = live;
            same = (==_iff t.id x).0 here_;
          }
          | inr there ↦
              later (next_artifacts-Next visited x rs ctx (ground (arith, live, new, there, e)))
        ]
      ]
    ]
  where
    later : Next x rs ctx → Next x (r ∷ rs) ctx
    later n = record {
      edge = n.edge;
      target = n.target;
      listed = ground (arith, n.listed);
      live = n.live;
      same = n.same;
    }
