-- ===== src/Persistence/Load.antt =====
-- Loading a context: `load_append` and `_apply_working_tree` of reactifact/_persistence.py, and
-- `SessionStore` of reactifact/session.py.
use reactifact.Prelude.{
  ℕ, ◌+◌, String, false, ◌||◌, Option, none, some, ◌≡◌, List, [], ◌∷◌, length, or_else, sort_by,
  if◌then◌else◌, string_eq,
}
use reactifact.Prelude.Dict.{Dict, lookup, insert, has}
use reactifact.Result.{Result, ok, err, type_error, ◌>>=◌}
use reactifact.Artifact.{Artifact}
use reactifact.Operations.{Relation}
use reactifact.Commit.{Commit}
use reactifact.CommitLog.{State, replay_state, replay_relations}
use reactifact.Context.{Context, Event, apply_commit, rebuild_indices}
use reactifact.Branching.{Branch}
use reactifact.Json.{
  Json, null, arr, obj, nil, end, find, as_list, as_dict, as_text, item_or, optional_list_at,
}
use reactifact.Codec.{
  Schema, relation_from_dict, commit_from_dict, artifact_from_dict, event_from_dict, renumber,
  set_edges, context_from_dict,
}
use reactifact.Persistence.Backends.{AppendBackend}
use reactifact.Persistence.Save.{Live, saved_point, mark_persisted}

-- `v or default`, where every other empty value is the default.
abbrev pub or_default : Json → Json → Json
or_default default null = default
or_default default v = v

-- What `_apply_working_tree` reads from its payload.
pub record Tree : Type 0 where
  pub artifacts : Dict String Artifact
  pub relations : List Relation
  pub order : List String

-- `artifact_id not in committed and artifact_id not in artifacts` is dropped.
unfoldable pub keep_known :
    State → Dict String Artifact → Dict String Artifact → Dict String Artifact
keep_known committed tree [] = []
keep_known committed tree ((aid, a) ∷ arts) =
    let rest = keep_known committed tree arts in
    if has aid committed || has aid tree then (aid, a) ∷ rest else rest

unfoldable pub put_all : Dict String Artifact → Dict String Artifact → Dict String Artifact
put_all [] arts = arts
put_all ((aid, a) ∷ tree) arts = put_all tree (insert aid a arts)

-- `{artifact_id: index for index, artifact_id in enumerate(order)}`
unfoldable pub ranks : ℕ → List String → Dict String ℕ → Dict String ℕ
ranks i [] d = d
ranks i (aid ∷ order) d = ranks (i + 1) order (insert aid i d)

unfoldable pub rank_in : Dict String ℕ → String × Artifact → ℕ
rank_in rank entry = or_else (lookup entry.0 rank) (length rank)

unfoldable pub restore_order : List String → Dict String Artifact → Dict String Artifact
unfolding sort_by rank_in ranks
restore_order [] arts = arts
restore_order (aid ∷ order) arts = sort_by (rank_in (ranks 0 (aid ∷ order) [])) arts

unfoldable pub apply_working_tree : Tree → Context → Context
unfolding keep_known put_all restore_order replay_state replay_relations set_edges rebuild_indices
apply_working_tree tree ctx =
    let kept = keep_known (replay_state ctx.log.version ctx.log) tree.artifacts ctx.artifacts in
    rebuild_indices (record ctx {
      artifacts = restore_order tree.order (put_all tree.artifacts kept);
      relations =
          set_edges (set_edges tree.relations []) (replay_relations ctx.log.version ctx.log);
    })

-- The commits of an entry, without the rebuild of the indices.
unfoldable pub apply_all : List Commit → Context → Result Context
unfolding apply_commit
apply_all [] ctx = ok ctx
apply_all (c ∷ cs) ctx = apply_commit false c ctx >>= apply_all cs

-- `replace_events` with new events.
unfoldable pub replace_events : List Event → Context → Context
unfolding renumber
replace_events es ctx = record ctx {
  events = renumber ctx.next_event es;
  next_event = ctx.next_event + length es;
}

-- What the loop of `load_append` has reached.
pub record Loading : Type 0 where
  pub context : Context
  pub tree : Option Json

module _ (s : Schema) where
  unfoldable pub read_tree : Json → Result Tree
  unfolding item_or
  read_tree payload = do
    raw ← item_or null "artifacts" payload
    arts ← as_dict (artifact_from_dict s) (or_default (obj end) raw)
    edges ← item_or null "relations" payload
    rels ← as_list relation_from_dict (or_default (arr nil) edges)
    ids ← item_or null "order" payload
    order ← as_list as_text (or_default (arr nil) ids)
    ok (record { artifacts = arts; relations = rels; order = order })

  -- `if "events" in entry`
  unfoldable pub read_events : Json → Context → Result Context
  unfolding find replace_events
  read_events (obj fs) ctx = elim (find "events" fs) [
    | none ↦ ok ctx
    | some v ↦ as_list (event_from_dict s) v >>= λ es. ok (replace_events es ctx)
  ]
  read_events v ctx = err type_error

  -- `if "working_tree" in entry`
  unfoldable pub last_tree : Json → Option Json → Option Json
  unfolding find
  last_tree (obj fs) tree = elim (find "working_tree" fs) [ none ↦ tree | some v ↦ some v ]
  last_tree v tree = tree

  -- One entry. All its commits are read before the first is applied.
  unfoldable pub read_entry : Json → Loading → Result Loading
  unfolding optional_list_at apply_all read_events last_tree
  read_entry d l = do
    commits ← optional_list_at (commit_from_dict s) "commits" d
    applied ← apply_all commits l.context
    ctx ← read_events d applied
    ok (record { context = ctx; tree = last_tree d l.tree })

  unfoldable pub read_entries : List Json → Loading → Result Loading
  unfolding read_entry
  read_entries [] l = ok l
  read_entries (d ∷ ds) l = read_entry d l >>= read_entries ds

  -- The working tree of the last entry that has one, and the indices.
  unfoldable pub finish_loading : Loading → Result Context
  unfolding read_tree apply_working_tree rebuild_indices
  finish_loading l = elim l.tree [
    | none ↦ ok (rebuild_indices l.context)
    | some payload ↦
        read_tree payload >>= λ t. ok (rebuild_indices (apply_working_tree t l.context))
  ]

  -- A loaded context is marked under the empty key by `from_dict`, and under its own at the end.
  abbrev pub loaded : String → Branch → Context → Live
  loaded key snapshot ctx =
      let branch = record snapshot { context = ctx } in
      mark_persisted key (record { branch = branch; persisted = ("", saved_point snapshot) ∷ [] })

  module _ (migrations : Dict ℕ (Json → Json)) where
    unfoldable pub load_from : String → Json → List Json → Result Live
    unfolding context_from_dict read_entries finish_loading mark_persisted
    load_from key snapshot ds = do
      branch ← context_from_dict s migrations snapshot
      l ← read_entries ds (record { context = branch.context; tree = none })
      ctx ← finish_loading l
      ok (loaded key branch ctx)

    unfoldable pub load_append :
        {St : Type 0} → AppendBackend St → String → St → Result (Option Live)
    unfolding load_from
    load_append b key st = elim (b.kv.get key st) [
      | none ↦ ok none
      | some snapshot ↦ load_from key snapshot (b.entries key st) >>= λ x. ok (some x)
    ]

    pub load_append_stored :
        {St : Type 0} (b : AppendBackend St) (key : String) (st : St) (snapshot : Json)
        (ds : List Json)
        → b.kv.get key st ≡ some snapshot
        → b.entries key st ≡ ds
        → load_append b key st ≡ (load_from key snapshot ds >>= λ x. ok (some x))
    unfolding load_append
    load_append_stored b key st snapshot ds e es = rw (load_append, e, es)
