-- ===== src/Audit/Walked.antt =====
-- The report of `build_report`: it comes back on fuel for the edges, and its chain is exactly what
-- the followed edges lead to.
use mathlib.Core.Path.{subst}
use reactifact.Prelude.{
  ℕ, zero, suc, ◌+◌, ◌≤◌, String, ◌≡◌, ◌↔◌, refl, sym, ap, true, false, ◌&&◌, ◌||◌, Option, none,
  some, or_else, List, [], ◌∷◌, ◌++◌, arith, ◌==◌, inl, inr, Bool-cases, Option-cases, ==_refl,
  ==_iff, string_eq, length, get_elem?, ◌∙◌,
}
use reactifact.Prelude.Dict.{Dict, lookup}
use reactifact.Prelude.Sets.{contains, add, contains-add, contains-append, IsOnce}
use reactifact.Model.{Model}
use reactifact.Artifact.{Artifact}
use reactifact.Operations.{Relation, relation_eq}
use reactifact.Context.{Context, get}
use reactifact.Audit.{ProvenanceEntry, Walk, start, entry, out_edges, next_artifacts, visit, walk}
use reactifact.Audit.Fuel.{unvisited, visit_descends}
use reactifact.Audit.Reached.{
  ids, Reaches, here, along, contains-out_edges, contains-next_artifacts, next_artifacts-Next,
}

abbrev AllLive : Context → List Artifact → Type 0
AllLive ctx [] = Unit
AllLive ctx (a ∷ as') = (lookup a.id ctx.artifacts ≡ some a) × AllLive ctx as'

add-new : (x : String) (v : List String) → contains x v ≡ false → add x v ≡ v ++ x ∷ []
unfolding add contains
add-new x [] new = refl
add-new x (y ∷ v) new = ground (arith, add-new x v, new)

add-IsOnce : (x : String) (v : List String) → IsOnce v → IsOnce (add x v)
unfolding add contains
add-IsOnce x [] h = (refl, tt)
add-IsOnce x (y ∷ v) h = elim (Bool-cases (y == x)) [
  | inl same ↦ rw same h
  | inr other ↦
      rw other (ground (arith, contains-add y x v, h.0, ==_iff x y, ==_iff y x), add-IsOnce x v h.1)
]

ids-append : (as' bs : List Artifact) → ids (as' ++ bs) ≡ ids as' ++ ids bs
ids-append [] bs = refl
ids-append (a ∷ as') bs = ground (arith, ids-append as' bs)

append-AllLive :
    (ctx : Context) (as' bs : List Artifact)
    → AllLive ctx as'
    → AllLive ctx bs
    → AllLive ctx (as' ++ bs)
append-AllLive ctx [] bs h k = k
append-AllLive ctx (a ∷ as') bs h k = (h.0, append-AllLive ctx as' bs h.1 k)

head-skipped :
    (v q : List String) (x : String)
    → contains x v ≡ true
    → get_elem? (v ++ q) 0 ≡ get_elem? (v ++ x ∷ q) 0
unfolding contains
head-skipped [] q x old = cc
head-skipped (y ∷ v) q x old = refl

head-visited :
    (v q r : List String) (x : String)
    → get_elem? ((v ++ x ∷ []) ++ (q ++ r)) 0 ≡ get_elem? (v ++ x ∷ q) 0
head-visited [] q r x = refl
head-visited (y ∷ v) q r x = refl

-- Every artifact stands under its own id.
abbrev pub IsKept : Context → Type 0
IsKept ctx = (k : String) (a : Artifact) → lookup k ctx.artifacts ≡ some a → a.id ≡ k

next_artifacts-AllLive :
    (visited : List String) (rs : List Relation) (ctx : Context)
    → IsKept ctx
    → AllLive ctx (next_artifacts visited rs ctx)
unfolding next_artifacts get
next_artifacts-AllLive visited [] ctx kept = tt
next_artifacts-AllLive visited (r ∷ rs) ctx kept =
    elim (Option-cases (lookup r.target_id ctx.artifacts)) [
      | inl gone ↦ rw (gone, next_artifacts) (next_artifacts-AllLive visited rs ctx kept)
      | inr (t, live) ↦
          rw (live, next_artifacts)
            (elim (Bool-cases (contains t.id visited)) [
              | inl old ↦ rw old (next_artifacts-AllLive visited rs ctx kept)
              | inr new ↦ rw new (
                subst (λ k. lookup k ctx.artifacts ≡ some t) (sym (kept r.target_id t live)) live,
                next_artifacts-AllLive visited rs ctx kept,
              )
            ])
    ]

module _ (data_hash : Model → String) (locator : Model → Option String) (followed : List String)
    (by : Dict String String) (ctx : Context) (origin : String) where
  -- The entries of the live artifacts under some ids.
  abbrev pub described : List String → List ProvenanceEntry
  described [] = []
  described (i ∷ is) = elim (get i ctx) [
    | none ↦ described is
    | some a ↦ entry data_hash locator a (or_else (lookup i by) "") ∷ described is
  ]

  -- What holds of the queue and of the locals each time the loop's condition is tested.
  pub record Visits (queue : List Artifact) (w : Walk) : Type 0 where
    seen : (x : String) → contains x w.visited ≡ true → Reaches followed ctx origin x
    queued : (x : String) → contains x (ids queue) ≡ true → Reaches followed ctx origin x
    closed :
        (r : Relation) (t : Artifact)
        → contains r ctx.relations ≡ true
        → contains r.relation followed ≡ true
        → contains r.source_id w.visited ≡ true
        → lookup r.target_id ctx.artifacts ≡ some t
        → (contains t.id w.visited || contains t.id (ids queue)) ≡ true
    started : (contains origin w.visited || contains origin (ids queue)) ≡ true
    headed : get_elem? (w.visited ++ ids queue) 0 ≡ some origin
    live : AllLive ctx queue
    once : IsOnce w.visited
    listed : w.entries ≡ described w.visited
    kept_edges :
        (r : Relation)
        → contains r w.edges ≡ (
            contains r ctx.relations
            && (contains r.source_id w.visited && contains r.relation followed))

  described-append :
      (is : List String) (a : Artifact)
      → lookup a.id ctx.artifacts ≡ some a
      → described (is ++ a.id ∷ [])
        ≡ described is ++ entry data_hash locator a (or_else (lookup a.id by) "") ∷ []
  unfolding get
  described-append [] a live = ground (arith, live)
  described-append (i ∷ is) a live = ground (arith, described-append is a live)

  skip :
      (a : Artifact) (queue : List Artifact) (w : Walk)
      → contains a.id w.visited ≡ true
      → Visits (a ∷ queue) w
      → Visits queue w
  unfolding contains
  skip a queue w old v = record {
    seen = v.seen;
    queued = λ x e. v.queued x (ground (arith, e));
    closed = λ r t e f g l. ground (arith, v.closed r t e f g l, ==_iff a.id t.id, old);
    started = ground (arith, v.started, ==_iff a.id origin, old);
    headed = head-skipped w.visited (ids queue) a.id old ∙ v.headed;
    live = v.live.1;
    once = v.once;
    listed = v.listed;
    kept_edges = v.kept_edges;
  }

  visited_next :
      (a : Artifact) (queue : List Artifact) (w : Walk)
      → IsKept ctx
      → contains a.id w.visited ≡ false
      → Visits (a ∷ queue) w
      → Visits
          (queue ++ next_artifacts (add a.id w.visited) (out_edges followed a.id ctx) ctx)
          (visit data_hash locator followed by ctx a w)
  unfolding contains visit
  visited_next a queue w kept new v = record {
    seen = λ x e. elim (Bool-cases (a.id == x)) [
      | inl same ↦ subst (λ y. Reaches followed ctx origin y) ((==_iff a.id x).0 same) reached
      | inr other ↦ v.seen x (ground (arith, contains-add x a.id w.visited, e, other))
    ];
    queued = λ x e. elim (Bool-cases (contains x (ids queue))) [
      | inl before ↦ v.queued x (ground (arith, before))
      | inr fresh ↦
          let n = next_artifacts-Next (add a.id w.visited) x (out_edges followed a.id ctx) ctx (
            ground
              (arith, e, fresh, ids-append queue new_, contains-append x (ids queue) (ids new_))) in
          subst (λ y. Reaches followed ctx origin y) n.same
            (along n.edge n.target reached
              (ground (arith, n.listed, contains-out_edges followed a.id ctx n.edge))
              ((==_iff n.edge.source_id a.id).0
                (ground (arith, n.listed, contains-out_edges followed a.id ctx n.edge)))
              (ground (arith, n.listed, contains-out_edges followed a.id ctx n.edge)) n.live)
    ];
    closed = λ r t e f g l. elim (Bool-cases (a.id == r.source_id)) [
      | inl ours ↦ ground (
        arith,
        contains-next_artifacts (add a.id w.visited) r t (out_edges followed a.id ctx) ctx l (
            ground (
              arith,
              contains-out_edges followed a.id ctx r,
              e,
              f,
              ours,
              ==_iff r.source_id a.id,
              ==_iff a.id r.source_id,
            )),
        ids-append queue new_,
        contains-append t.id (ids queue) (ids new_),
      )
      | inr theirs ↦ ground (
        arith,
        v.closed r t e f (ground (arith, g, theirs, contains-add r.source_id a.id w.visited)) l,
        contains-add t.id a.id w.visited,
        ids-append queue new_,
        contains-append t.id (ids queue) (ids new_),
      )
    ];
    started = ground (
      arith,
      v.started,
      contains-add origin a.id w.visited,
      contains-append origin (ids queue) (ids new_),
      ids-append queue new_,
    );
    headed =
        ap (λ l. get_elem? (l ++ ids (queue ++ new_)) 0) (add-new a.id w.visited new)
        ∙ ap (λ l. get_elem? ((w.visited ++ a.id ∷ []) ++ l) 0) (ids-append queue new_)
        ∙ head-visited w.visited (ids queue) (ids new_) a.id
        ∙ v.headed;
    live =
        append-AllLive ctx queue new_ v.live.1
          (next_artifacts-AllLive (add a.id w.visited) (out_edges followed a.id ctx) ctx kept);
    once = add-IsOnce a.id w.visited v.once;
    listed =
        ground (arith, v.listed, add-new a.id w.visited new, described-append w.visited a v.live.0);
    kept_edges = λ r. ground (
      arith,
      contains-append r w.edges (out_edges followed a.id ctx),
      v.kept_edges r,
      contains-out_edges followed a.id ctx r,
      contains-add r.source_id a.id w.visited,
      ==_iff a.id r.source_id,
      ==_iff r.source_id a.id,
    );
  }
    where
      new_ : List Artifact
      new_ = next_artifacts (add a.id w.visited) (out_edges followed a.id ctx) ctx

      reached : Reaches followed ctx origin a.id
      reached = v.queued a.id (ground (arith, ==_refl a.id))

  -- What is left when the loop ends.
  pub record Walked (w : Walk) : Type 0 where
    pub reached : (x : String) → (contains x w.visited ≡ true) ↔ Reaches followed ctx origin x
    pub headed : get_elem? w.visited 0 ≡ some origin
    pub once : IsOnce w.visited
    pub listed : w.entries ≡ described w.visited
    pub kept_edges :
        (r : Relation)
        → contains r w.edges ≡ (
            contains r ctx.relations
            && (contains r.source_id w.visited && contains r.relation followed))

  ended : (w : Walk) → Visits [] w → Walked w
  unfolding contains
  ended w v = record {
    reached = λ x. (v.seen x, back x);
    headed = append_nil w.visited v.headed;
    once = v.once;
    listed = v.listed;
    kept_edges = v.kept_edges;
  }
    where
      append_nil :
          (is : List String) → get_elem? (is ++ []) 0 ≡ some origin → get_elem? is 0 ≡ some origin
      append_nil [] e = e
      append_nil (i ∷ is) e = e

      back : (x : String) → Reaches followed ctx origin x → contains x w.visited ≡ true
      back x here = ground (arith, v.started)
      back x (along {s} r t before e same f l) = ground (
        arith,
        v.closed r t e f (subst (λ y. contains y w.visited ≡ true) (sym same) (back s before)) l,
      )

  pub walk-Walked :
      (n : ℕ) (queue : List Artifact) (w : Walk)
      → IsKept ctx
      → length queue + unvisited w.visited ctx.relations ≤ n
      → Visits queue w
      → (w' : Walk) × (walk data_hash locator followed by ctx n queue w ≡ some w') × Walked w'
  unfolding walk
  walk-Walked n [] w kept enough v = (w, refl, ended w v)
  walk-Walked zero (a ∷ queue) w kept enough v = absurd (omega arith)
  walk-Walked (suc n) (a ∷ queue) w kept enough v = elim (Bool-cases (contains a.id w.visited)) [
    | inl old ↦ rw (old, walk) (walk-Walked n queue w kept (omega arith) (skip a queue w old v))
    | inr new ↦
        rw (new, walk)
          (walk-Walked n
            (queue ++ next_artifacts (add a.id w.visited) (out_edges followed a.id ctx) ctx)
            (visit data_hash locator followed by ctx a w) kept
            (unfold visit in omega (arith, visit_descends followed a.id w.visited queue ctx new))
            (visited_next a queue w kept new v))
  ]

  pub start-Visits :
      (a : Artifact) → a.id ≡ origin → lookup a.id ctx.artifacts ≡ some a → Visits (a ∷ []) start
  unfolding contains
  start-Visits a same live = record {
    seen = λ x e. cc;
    queued = λ x e.
        subst (λ y. Reaches followed ctx origin y)
          (sym same ∙ (==_iff a.id x).0 (ground (arith, e))) here;
    closed = λ r t e f g l. cc;
    started = ground (arith, ==_iff a.id origin, same);
    headed = ap some same;
    live = (live, tt);
    once = tt;
    listed = refl;
    kept_edges = λ r. ground arith;
  }
