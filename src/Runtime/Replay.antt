-- ===== src/Runtime/Replay.antt =====
-- The state that commits replay to is the live state.
use text.Mathlib.TextEquality.{eq_iff}
use mathlib.Core.Option
use reactifact.Prelude.{
  ℕ, ◌+◌, String, ◌≡◌, refl, true, Option, none, some, List, [], ◌∷◌, arith, ◌==◌, if◌then◌else◌,
  string_eq, inl, inr, Bool-cases, Option-cases, ==_iff, ◌∙◌, ap, sym, ◌⊎◌,
}
use reactifact.Prelude.Dict.{Dict, lookup, insert, remove, has, lookup-insert, lookup-remove}
use reactifact.Model.{Model, model_eq}
use reactifact.Artifact.{Artifact, new, revise}
use reactifact.Operations.{Operation, create, update, delete, link, unlink}
use reactifact.RelationGraph
use reactifact.RelationGraph.Laws.{unlink_lem}
use reactifact.Commit.{Commit, Read}
use reactifact.CommitLog.{
  CommitLog, append, State, replay_op, replay_ops, replay_edge, replay_edges, replay_unlink,
  replay_state, replay_relations,
}
use reactifact.CommitLog.Chain.{IsValid, append-IsValid}
use reactifact.CommitLog.Replayed.{Agree, append_replays}
use reactifact.Context
use reactifact.Context.{
  Context, chosen_id, create_new, store_update, mark_stale, dependents_of, log_commit,
}
use reactifact.Context.TypeIndex.{mark_stale_keeps}
use reactifact.Runtime.Agents.{Agent}
use reactifact.Runtime.Patches.{
  Applied, Patched, apply_new, apply_op, apply_patch, commit_patch, patch_commit,
}

-- The data that a context holds under an id.
abbrev pub data_at : String → Dict String Artifact → Option Model
data_at aid arts = Option.map (λ (a : Artifact). a.data_) (lookup aid arts)

-- A state and a graph that hold what the context holds, and the same log.
pub record Mirrors (st : State) (g : RelationGraph.Graph) (log : CommitLog) (ctx : Context)
    : Type 0 where
  pub data_agrees : (aid : String) → lookup aid st ≡ data_at aid ctx.artifacts
  pub edges_agree : g ≡ ctx.relations
  pub log_kept : ctx.log ≡ log

-- An update in the patch finds its artifact when its turn comes.
abbrev pub IsGrounded : (ℕ → String) → String → List Operation → Context → Type 0
IsGrounded fresh cid [] ctx = Unit
IsGrounded fresh cid (update aid d ∷ ops) ctx =
    (has aid ctx.artifacts ≡ true)
    × IsGrounded (λ n. fresh (n + 1)) cid ops (apply_op (fresh 0) cid (update aid d) ctx).context
IsGrounded fresh cid (op ∷ ops) ctx =
    IsGrounded (λ n. fresh (n + 1)) cid ops (apply_op (fresh 0) cid op ctx).context

pub update_data :
    (aid : String) (d : Model) (ctx : Context)
    → has aid ctx.artifacts ≡ true
    → ((j : String)
        → data_at j (Context.update aid d ctx).0.artifacts
          ≡ (if aid == j then some d else data_at j ctx.artifacts))
      × ((Context.update aid d ctx).0.relations ≡ ctx.relations)
      × ((Context.update aid d ctx).0.log ≡ ctx.log)
unfolding Context.update
update_data aid d ctx known = elim (Option-cases (lookup aid ctx.artifacts)) [
  | inl e ↦ absurd (ground (arith, e, known))
  | inr (a, e) ↦
      rw (e, Context.update)
        (elim (Bool-cases (a.data_ == d)) [
          | inl same ↦
              rw same (λ j. ground (arith, e, same, ==_iff a.data_ d, eq_iff aid j), refl, refl)
          | inr moved ↦ rw moved (marked a)
        ])
]
  where
    marked :
        (a : Artifact)
        → ((j : String)
            → data_at j
                (mark_stale
                  (dependents_of aid (store_update a aid d ctx))
                  (store_update a aid d ctx)).artifacts
              ≡ (if aid == j then some d else data_at j ctx.artifacts))
          × ((mark_stale
                (dependents_of aid (store_update a aid d ctx))
                (store_update a aid d ctx)).relations
              ≡ ctx.relations)
          × ((mark_stale
                (dependents_of aid (store_update a aid d ctx))
                (store_update a aid d ctx)).log
              ≡ ctx.log)
    marked a =
        let kept =
          mark_stale_keeps (dependents_of aid (store_update a aid d ctx))
            (store_update a aid d ctx) in
        (
          λ j. rw kept.0 (
              unfold store_update revise in
              ground (arith, lookup-insert j aid (revise a d) ctx.artifacts)),
          kept.3 ∙ unfold store_update in refl,
          kept.2 ∙ unfold store_update in refl,
        )

-- What `create` reaches when its id is not in use.
create_unused :
    (fresh : String) (d : Model) (i : Option String) (ctx : Context)
    → (i ≡ none) ⊎ ((k : String) × (i ≡ some k) × (lookup k ctx.artifacts ≡ none))
    → Context.create fresh d i ctx ≡ create_new fresh d i ctx
unfolding Context.create
create_unused fresh d none ctx free = refl
create_unused fresh d (some i) ctx (inl e) = cc
create_unused fresh d (some i) ctx (inr (k, e, absent)) = ground (arith, e, absent)

module _ (fresh cid : String) (log : CommitLog) where
  apply_new-Mirrors :
      (d : Model) (i : Option String) (st : State) (g : RelationGraph.Graph) (ctx : Context)
      → (i ≡ none) ⊎ ((k : String) × (i ≡ some k) × (lookup k ctx.artifacts ≡ none))
      → Mirrors st g log ctx
      → Mirrors
          (replay_op (apply_new fresh cid d i ctx).operation st)
          (replay_edge (apply_new fresh cid d i ctx).operation g)
          log
          (apply_new fresh cid d i ctx).context
  unfolding apply_new create_new replay_op replay_edge
  apply_new-Mirrors d i st g ctx free h = record {
    data_agrees = λ j. rw (create_unused fresh d i ctx free) (
        ground (
          arith,
          lookup-insert j (chosen_id fresh i) d st,
          lookup-insert j (chosen_id fresh i)
              (record (new d (chosen_id fresh i) none) { created_by_commit = some cid })
              (insert (chosen_id fresh i) (new d (chosen_id fresh i) none) ctx.artifacts),
          lookup-insert j (chosen_id fresh i) (new d (chosen_id fresh i) none) ctx.artifacts,
          h.data_agrees j,
        ));
    edges_agree = rw (create_unused fresh d i ctx free) h.edges_agree;
    log_kept = rw (create_unused fresh d i ctx free) h.log_kept;
  }

  updated :
      (aid : String) (d : Model) (st : State) (g : RelationGraph.Graph) (ctx : Context)
      → has aid ctx.artifacts ≡ true
      → Mirrors st g log ctx
      → Mirrors (insert aid d st) g log (Context.update aid d ctx).0
  updated aid d st g ctx known h =
      let (data_, relations, kept) = update_data aid d ctx known in
      record {
        data_agrees = λ j. ground (arith, lookup-insert j aid d st, data_ j, h.data_agrees j);
        edges_agree = h.edges_agree ∙ sym relations;
        log_kept = kept ∙ h.log_kept;
      }

  deleted :
      (aid : String) (st : State) (g : RelationGraph.Graph) (ctx : Context)
      → Mirrors st g log ctx
      → Mirrors (remove aid st) g log (Context.delete aid ctx).0
  unfolding Context.delete
  deleted aid st g ctx h = elim (Option-cases (lookup aid ctx.artifacts)) [
    | inl e ↦
        rw (e, Context.delete)
          (record {
            data_agrees =
                λ j. ground (arith, lookup-remove j aid st, h.data_agrees j, e, eq_iff aid j);
            edges_agree = h.edges_agree;
            log_kept = h.log_kept;
          })
    | inr (a, e) ↦
        rw (e, Context.delete)
          (record {
            data_agrees = λ j.
                ground (
                  arith,
                  lookup-remove j aid st,
                  lookup-remove j aid ctx.artifacts,
                  h.data_agrees j,
                );
            edges_agree = h.edges_agree;
            log_kept = h.log_kept;
          })
  ]

  apply_op-Mirrors :
      (op : Operation) (st : State) (g : RelationGraph.Graph) (ctx : Context)
      → IsGrounded (λ _. fresh) cid (op ∷ []) ctx
      → Mirrors st g log ctx
      → Mirrors
          (replay_op (apply_op fresh cid op ctx).operation st)
          (replay_edge (apply_op fresh cid op ctx).operation g)
          log
          (apply_op fresh cid op ctx).context
  unfolding apply_op replay_op replay_edge
  apply_op-Mirrors (create d aid none) st g ctx grounded h =
      apply_new-Mirrors d none st g ctx (inl refl) h
  apply_op-Mirrors (create d aid (some i)) st g ctx grounded h =
      elim (Option-cases (lookup i ctx.artifacts)) [
        | inl e ↦ rw (e, apply_op) (apply_new-Mirrors d (some i) st g ctx (inr (i, refl, e)) h)
        | inr (a, e) ↦ rw (e, apply_op) (updated i d st g ctx (ground (arith, e)) h)
      ]
  apply_op-Mirrors (update aid d) st g ctx grounded h = updated aid d st g ctx grounded.0 h
  apply_op-Mirrors (delete aid) st g ctx grounded h = deleted aid st g ctx h
  apply_op-Mirrors (link s r t) st g ctx grounded h = record {
    data_agrees = h.data_agrees;
    edges_agree = ap (RelationGraph.link s r t) h.edges_agree;
    log_kept = h.log_kept;
  }
  apply_op-Mirrors (unlink s r t) st g ctx grounded h = record {
    data_agrees = h.data_agrees;
    edges_agree = ap (replay_unlink s r t) h.edges_agree ∙ sym (unlink_lem s r t ctx.relations).2;
    log_kept = h.log_kept;
  }

  first-IsGrounded :
      (next : ℕ → String) (op : Operation) (ops : List Operation) (ctx : Context)
      → IsGrounded next cid (op ∷ ops) ctx
      → IsGrounded (λ _. next 0) cid (op ∷ []) ctx
  first-IsGrounded next (create d aid i) ops ctx h = tt
  first-IsGrounded next (update aid d) ops ctx h = (h.0, tt)
  first-IsGrounded next (delete aid) ops ctx h = tt
  first-IsGrounded next (link s r t) ops ctx h = tt
  first-IsGrounded next (unlink s r t) ops ctx h = tt

rest-IsGrounded :
    (cid : String) (next : ℕ → String) (op : Operation) (ops : List Operation) (ctx : Context)
    → IsGrounded next cid (op ∷ ops) ctx
    → IsGrounded (λ n. next (n + 1)) cid ops (apply_op (next 0) cid op ctx).context
rest-IsGrounded cid next (create d aid i) ops ctx h = h
rest-IsGrounded cid next (update aid d) ops ctx h = h.1
rest-IsGrounded cid next (delete aid) ops ctx h = h
rest-IsGrounded cid next (link s r t) ops ctx h = h
rest-IsGrounded cid next (unlink s r t) ops ctx h = h

apply_patch-Mirrors :
    (next : ℕ → String) (cid : String) (log : CommitLog) (ops : List Operation) (st : State)
    (g : RelationGraph.Graph) (ctx : Context)
    → IsGrounded next cid ops ctx
    → Mirrors st g log ctx
    → Mirrors
        (replay_ops (apply_patch next cid ops ctx).operations st)
        (replay_edges (apply_patch next cid ops ctx).operations g)
        log
        (apply_patch next cid ops ctx).context
apply_patch-Mirrors next cid log [] st g ctx grounded h =
    unfold apply_patch replay_ops replay_edges in h
apply_patch-Mirrors next cid log (op ∷ ops) st g ctx grounded h = both (
    apply_patch-Mirrors (λ n. next (n + 1)) cid log ops _ _ _
      (rest-IsGrounded cid next op ops ctx grounded)
      (apply_op-Mirrors (next 0) cid log op st g ctx
        (first-IsGrounded (next 0) cid log next op ops ctx grounded) h))
  where
    a : Applied
    a = apply_op (next 0) cid op ctx

    both :
        Mirrors
          (replay_ops
            (apply_patch (λ n. next (n + 1)) cid ops a.context).operations
            (replay_op a.operation st))
          (replay_edges
            (apply_patch (λ n. next (n + 1)) cid ops a.context).operations
            (replay_edge a.operation g))
          log
          (apply_patch (λ n. next (n + 1)) cid ops a.context).context
        → Mirrors
            (replay_ops (apply_patch next cid (op ∷ ops) ctx).operations st)
            (replay_edges (apply_patch next cid (op ∷ ops) ctx).operations g)
            log
            (apply_patch next cid (op ∷ ops) ctx).context
    both m = unfold apply_patch replay_ops replay_edges in m

-- The context is what the replay of its whole log gives: the same data under the same ids, and the
-- same edges.
pub record IsCommitted (ctx : Context) : Type 0 where
  pub log_valid : IsValid ctx.log
  pub data_agrees :
      (aid : String) → lookup aid (replay_state ctx.log.version ctx.log) ≡ data_at aid ctx.artifacts
  pub edges_agree : replay_relations ctx.log.version ctx.log ≡ ctx.relations

-- Committing a patch whose updates find their artifacts keeps the context equal to the replay of
-- its log, one version further, with the commit as the head.
pub commit_patch-IsCommitted :
    (next : ℕ → String) (cid : String) (agent : Agent) (reads : List Read) (ops : List Operation)
    (ctx : Context)
    → IsGrounded next cid ops ctx
    → IsCommitted ctx
    → IsCommitted (commit_patch next cid agent reads ops ctx)
      × ((commit_patch next cid agent reads ops ctx).log.version ≡ ctx.log.version + 1)
      × ((commit_patch next cid agent reads ops ctx).log.head_id ≡ some cid)
unfolding commit_patch
commit_patch-IsCommitted next cid agent reads ops ctx grounded h = (
  record {
    log_valid = rw mirrored.log_kept (append-IsValid c ctx.log h.log_valid);
    data_agrees = λ aid.
        rw mirrored.log_kept
          (ap (lookup aid) (unfold append in replays.1) ∙ mirrored.data_agrees aid);
    edges_agree = rw mirrored.log_kept ((unfold append in replays.2) ∙ mirrored.edges_agree);
  },
  unfold append in ap (λ (l : CommitLog). l.version + 1) mirrored.log_kept,
  unfold append in refl,
)
  where
    p : Patched
    p = apply_patch next cid ops ctx

    c : Commit
    c = patch_commit cid agent reads p

    replays :
        Agree ctx.log.version (append c ctx.log) ctx.log
        × (replay_state (ctx.log.version + 1) (append c ctx.log)
            ≡ replay_ops c.operations (replay_state ctx.log.version ctx.log))
        × (replay_relations (ctx.log.version + 1) (append c ctx.log)
            ≡ replay_edges c.operations (replay_relations ctx.log.version ctx.log))
    replays = append_replays c ctx.log h.log_valid

    mirrored :
        Mirrors
          (replay_ops p.operations (replay_state ctx.log.version ctx.log))
          (replay_edges p.operations (replay_relations ctx.log.version ctx.log))
          ctx.log
          p.context
    mirrored =
        apply_patch-Mirrors next cid ctx.log ops (replay_state ctx.log.version ctx.log)
          (replay_relations ctx.log.version ctx.log) ctx grounded
          (record { data_agrees = h.data_agrees; edges_agree = h.edges_agree; log_kept = refl })
