-- ===== src/Audit/Report.antt =====
-- What `build_report` returns for an answer that it finds by its id.
use mathlib.Core.Path.{subst}
use reactifact.Prelude.{
  ℕ, suc, ◌≤◌, String, ◌≡◌, ◌↔◌, refl, sym, ◌∙◌, true, ◌&&◌, Option, some, or_else, List, [], ◌∷◌,
  arith, string_eq, length, get_elem?,
}
use reactifact.Prelude.Dict.{Dict, lookup}
use reactifact.Prelude.Sets.{contains, IsOnce}
use reactifact.Result.{ok}
use reactifact.Model.{Model}
use reactifact.Artifact.{Artifact}
use reactifact.Operations.{Relation, relation_eq}
use reactifact.RelationGraph.{Graph}
use reactifact.Context.{Context, get}
use reactifact.Audit.{
  AuditReport, ProvenanceEntry, by_id, Walk, start, entry, walk, producers, build_report,
  default_relations, finished, resolve_answer,
}
use reactifact.Audit.Fuel.{unvisited}
use reactifact.Audit.Reached.{Reaches}
use reactifact.Audit.Walked.{IsKept, described, walk-Walked, start-Visits}

unvisited_nil : (g : Graph) → unvisited [] g ≡ length g
unfolding contains
unvisited_nil [] = refl
unvisited_nil (r ∷ g) = omega (arith, unvisited_nil g)

module _ (data_hash : Model → String) (locator : Model → Option String) (followed : List String)
    (origin : String) (ctx : Context) where
  -- A report whose chain of evidence is exactly what the followed edges lead to.
  pub record IsProvenance (report : AuditReport) : Type 0 where
    pub chain : List String
    pub reached : (x : String) → (contains x chain ≡ true) ↔ Reaches followed ctx origin x
    pub once : IsOnce chain
    pub headed : get_elem? chain 0 ≡ some origin
    pub entries :
        report.answer ∷ report.provenance
        ≡ described data_hash locator followed (producers ctx.log.commits []) ctx origin chain
    pub edges :
        (r : Relation)
        → contains r report.relations ≡ (
            contains r ctx.relations
            && (contains r.source_id chain && contains r.relation followed))

abbrev report_of :
    String → String → Context → Walk → ProvenanceEntry → List ProvenanceEntry → AuditReport
report_of session sha ctx w e es = record {
  session_id = session;
  context_version = ctx.log.version;
  context_sha256 = sha;
  answer = e;
  provenance = es;
  relations = w.edges;
  sources = w.sources;
}

described-headed :
    (data_hash : Model → String) (locator : Model → Option String) (followed : List String)
    (by : Dict String String) (ctx : Context) (origin : String) (a : Artifact) (is : List String)
    → lookup origin ctx.artifacts ≡ some a
    → get_elem? is 0 ≡ some origin
    → (e : ProvenanceEntry) × (es : List ProvenanceEntry) × (described data_hash locator followed by
          ctx origin is
        ≡ e ∷ es)
described-headed data_hash locator followed by ctx origin a [] live headed = cc
described-headed data_hash locator followed by ctx origin a (i ∷ is) live headed =
    let live' : lookup i ctx.artifacts ≡ some a = cc in
    (
      entry data_hash locator a (or_else (lookup i by) ""),
      described data_hash locator followed by ctx origin is,
      unfold get in ground (arith, live'),
    )

build_report-ok :
    (data_hash : Model → String) (locator : Model → Option String) (fuel : ℕ) (session sha : String)
    (given : Option (List String)) (origin : String) (ctx : Context) (a : Artifact) (w : Walk)
    (e : ProvenanceEntry) (es : List ProvenanceEntry)
    → lookup origin ctx.artifacts ≡ some a
    → walk data_hash locator
        (or_else given default_relations)
        (producers ctx.log.commits [])
        ctx
        fuel
        (a ∷ [])
        start
      ≡ some w
    → w.entries ≡ e ∷ es
    → build_report data_hash locator fuel session sha given (by_id origin) ctx
      ≡ some (ok (report_of session sha ctx w e es))
unfolding build_report resolve_answer get finished
build_report-ok data_hash locator fuel session sha given origin ctx a w e es live ran listed =
    rw (live, build_report, ran, listed) refl

-- The report on an answer in the context comes back if the fuel exceeds the number of edges; its
-- chain starts with the answer, names once each artifact that the followed edges lead to from the
-- answer and no other, each described as it lives in the context, and its edges are those that
-- leave the chain and are followed. Every artifact stands under its own id.
pub build_report_lem :
    (data_hash : Model → String) (locator : Model → Option String) (fuel : ℕ) (session sha : String)
    (given : Option (List String)) (origin : String) (ctx : Context) (a : Artifact)
    → IsKept ctx
    → suc (length ctx.relations) ≤ fuel
    → lookup origin ctx.artifacts ≡ some a
    → (report : AuditReport) × (build_report data_hash locator fuel session sha given
          (by_id origin)
          ctx
        ≡ some (ok report))
      × IsProvenance data_hash locator (or_else given default_relations) origin ctx report
build_report_lem data_hash locator fuel session sha given origin ctx a kept enough live =
    let (w, ran, walked) =
      walk-Walked data_hash locator followed by ctx origin fuel (a ∷ []) start kept
        (omega (arith, unvisited_nil ctx.relations, enough))
        (start-Visits data_hash locator followed by ctx origin a same
          (subst (λ k. lookup k ctx.artifacts ≡ some a) (sym same) live)) in
    let (e, es, opened) =
      described-headed data_hash locator followed by ctx origin a w.visited live walked.headed in
    (
      report_of session sha ctx w e es,
      build_report-ok data_hash locator fuel session sha given origin ctx a w e es live ran
          (walked.listed ∙ opened),
      record {
        chain = w.visited;
        reached = walked.reached;
        once = walked.once;
        headed = walked.headed;
        entries = sym opened;
        edges = walked.kept_edges;
      },
    )
  where
    followed : List String
    followed = or_else given default_relations

    by : Dict String String
    by = producers ctx.log.commits []

    same : a.id ≡ origin
    same = kept origin a live
