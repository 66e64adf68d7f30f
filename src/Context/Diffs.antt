-- ===== src/Context/Diffs.antt =====
-- reactifact/context.py: what `diff` says of two versions.
use reactifact.Prelude.{
  ℕ, ◌≤◌, String, ◌≡◌, refl, false, not, ◌&&◌, Option, none, some, List, [], ◌∷◌, arith, ◌==◌,
  if◌then◌else◌, string_eq, inl, inr, Option-cases, ap, is_some, leb, ltb,
}
use reactifact.Prelude.Dict.{lookup, has, IsDistinct, insert-IsDistinct, remove-IsDistinct}
use reactifact.Result.{ok}
use reactifact.Model.{Model, model_eq}
use reactifact.Operations.{Operation, create, update, delete, link, unlink}
use reactifact.Commit.{Commit}
use reactifact.CommitLog.{
  CommitLog, State, replay_op, replay_ops, replay_commits, replay_state, commits_upto,
}
use reactifact.CommitLog.Replayed.{base_state, replay_state_lem}
use reactifact.Context.State.{Context}
use reactifact.Context.Rollback.{Diff, missing_from, changes, diff}

lookup-missing_from :
    (k : String) (a b : State)
    → lookup k (missing_from a b) ≡ (if has k b then none else lookup k a)
unfolding missing_from lookup
lookup-missing_from k [] b = ground arith
lookup-missing_from k ((aid, d) ∷ a) b =
    ground (arith, lookup-missing_from k a b, string_eq.beq_iff aid k, ap (λ i. has i b))

-- The pair that a change under an id is shown as.
abbrev change_of : Option Model → Option Model → Option (Model × Model)
change_of (some d) (some d') = if d == d' then none else some (d, d')
change_of (some d) none = none
change_of none d' = none

lookup-changes :
    (k : String) (a b : State)
    → IsDistinct a
    → lookup k (changes a b) ≡ change_of (lookup k a) (lookup k b)
unfolding changes lookup
lookup-changes k [] b h = ground arith
lookup-changes k ((aid, d) ∷ a) b h = elim (Option-cases (lookup aid b)) [
  | inl e ↦ ground (arith, e, lookup-changes k a b h.1, string_eq.beq_iff aid k, h.0)
  | inr (x, e) ↦ ground (arith, e, lookup-changes k a b h.1, string_eq.beq_iff aid k, h.0)
]

replay_op-IsDistinct : (op : Operation) (st : State) → IsDistinct st → IsDistinct (replay_op op st)
unfolding replay_op
replay_op-IsDistinct (create d none i) st h = h
replay_op-IsDistinct (create d (some aid) i) st h = insert-IsDistinct aid d st h
replay_op-IsDistinct (update aid d) st h = insert-IsDistinct aid d st h
replay_op-IsDistinct (delete aid) st h = remove-IsDistinct aid st h
replay_op-IsDistinct (link s r t) st h = h
replay_op-IsDistinct (unlink s r t) st h = h

replay_ops-IsDistinct :
    (ops : List Operation) (st : State) → IsDistinct st → IsDistinct (replay_ops ops st)
unfolding replay_ops
replay_ops-IsDistinct [] st h = h
replay_ops-IsDistinct (op ∷ ops) st h =
    replay_ops-IsDistinct ops (replay_op op st) (replay_op-IsDistinct op st h)

replay_commits-IsDistinct :
    (cs : List Commit) (st : State) → IsDistinct st → IsDistinct (replay_commits cs st)
unfolding replay_commits
replay_commits-IsDistinct [] st h = h
replay_commits-IsDistinct (c ∷ cs) st h =
    replay_commits-IsDistinct cs (replay_ops c.operations st)
      (replay_ops-IsDistinct c.operations st h)

-- A replay from a base without repeated ids has none.
replay_state-IsDistinct :
    (v : ℕ) (log : CommitLog) → IsDistinct (base_state log) → IsDistinct (replay_state v log)
replay_state-IsDistinct v log h =
    rw (replay_state_lem v log) (replay_commits-IsDistinct (commits_upto v log) (base_state log) h)

-- A state with a difference applied: what is removed goes, what is changed or added is set.
abbrev pub patched_at : String → Diff → State → Option Model
patched_at k d st = if has k d.removed then none else elim (lookup k d.changed) [
  | some p ↦ some p.1
  | none ↦ elim (lookup k d.added) [ some x ↦ some x | none ↦ lookup k st ]
]

patched_lem :
    (k : String) (a b : State) (d : Diff)
    → lookup k d.added ≡ (if has k a then none else lookup k b)
    → lookup k d.removed ≡ (if has k b then none else lookup k a)
    → lookup k d.changed ≡ change_of (lookup k a) (lookup k b)
    → patched_at k d a ≡ lookup k b
patched_lem k a b d added removed changed = elim (Option-cases (lookup k a)) [
  | inl e ↦ elim (Option-cases (lookup k b)) [
    | inl f ↦ ground (arith, e, f, added, removed, changed)
    | inr (y, f) ↦ ground (arith, e, f, added, removed, changed)
  ]
  | inr (x, e) ↦ elim (Option-cases (lookup k b)) [
    | inl f ↦ ground (arith, e, f, added, removed, changed)
    | inr (y, f) ↦ ground (arith, e, f, added, removed, changed, model_eq.beq_iff x y)
  ]
]

pub diff_lem :
    (v w : ℕ) (ctx : Context)
    → IsDistinct (base_state ctx.log)
    → ctx.log.baseline_version ≤ v
    → v ≤ w
    → w ≤ ctx.log.version
    → (d : Diff) × (diff v w ctx ≡ ok d)
      × ((k : String) → patched_at k d (replay_state v ctx.log) ≡ lookup k (replay_state w ctx.log))
      × ((k : String) → (is_some (lookup k d.added) && has k (replay_state v ctx.log)) ≡ false)
unfolding diff
diff_lem v w ctx distinct lo mid hi =
    let a = replay_state v ctx.log in
    let b = replay_state w ctx.log in
    let d : Diff = record {
      added = missing_from b a;
      removed = missing_from a b;
      changed = changes a b;
    } in
    let known : ltb v ctx.log.baseline_version ≡ false = ground arith in
    let ordered : not (leb v w && leb w ctx.log.version) ≡ false = ground arith in
    (
      d,
      rw (known, ordered, diff) refl,
      λ k.
          patched_lem k a b d (lookup-missing_from k b a) (lookup-missing_from k a b)
            (lookup-changes k a b (replay_state-IsDistinct v ctx.log distinct)),
      λ k. ground (arith, lookup-missing_from k b a),
    )
