-- ===== src/Persistence/Save.antt =====
-- Saving a context: `save_append` and `_working_tree` of reactifact/_persistence.py, and the marks
-- of what is persisted in reactifact/context.py.
use reactifact.Prelude.{
  ℕ, ◌+◌, String, Bool, true, false, ◌||◌, not, Option, none, some, List, [], ◌∷◌, ltb, leb,
  or_else, is_some, keep_if, ◌==◌, if◌then◌else◌, string_eq,
}
use reactifact.Prelude.Dict.{Dict, lookup, insert}
use reactifact.Prelude.Sets.{contains}
use reactifact.Model.{model_eq}
use reactifact.Artifact.{Artifact}
use reactifact.Operations.{relation_eq}
use reactifact.RelationGraph.{Graph}
use reactifact.Commit.{Commit}
use reactifact.CommitLog.{CommitLog, State, replay_state, replay_relations}
use reactifact.Context.{Context}
use reactifact.Branching.{Branch}
use reactifact.Json.{Json, text, arr, obj, end, field, items_of, fields_of}
use reactifact.Codec.{
  Schema, relation_to_dict, commit_to_dict, artifact_to_dict, event_to_dict, context_to_dict,
}
use reactifact.Persistence.Backends.{KvBackend, AppendBackend, entry_count}

-- A context with its table `_persisted` of the versions that are saved under each key.
pub record Live : Type 0 where
  pub branch : Branch
  pub persisted : Dict String (ℕ × ℕ)

-- `(version, compacted_at)`
abbrev pub saved_point : Branch → ℕ × ℕ
saved_point b = (b.context.log.version, b.context.log.baseline_version)

unfoldable pub mark_persisted : String → Live → Live
mark_persisted key x = record x { persisted = insert key (saved_point x.branch) x.persisted }

-- The four tests of `needs_snapshot`; no mark is the version -1.
unfoldable pub needs_snapshot : Option (ℕ × ℕ) → CommitLog → Option Json → Bool
needs_snapshot none log snapshot = true
needs_snapshot (some (persisted, compacted)) log snapshot =
    ltb log.version persisted || (ltb compacted log.baseline_version || not (is_some snapshot))

-- `compact_every is not None and entry_count + 1 >= compact_every`
abbrev pub compact_due : Option ℕ → ℕ → Bool
compact_due none count = false
compact_due (some every) count = leb every (count + 1)

-- `aid not in committed or committed[aid] != artifact.data`
unfoldable pub is_dirty : State → String → Artifact → Bool
is_dirty committed aid a = elim (lookup aid committed) [ none ↦ true | some d ↦ not (d == a.data_) ]

unfoldable pub dirty : State → Dict String Artifact → Dict String Artifact
unfolding is_dirty
dirty committed [] = []
dirty committed ((aid, a) ∷ arts) =
    let rest = dirty committed arts in if is_dirty committed aid a then (aid, a) ∷ rest else rest

-- An edge is its own key, so an edge under the same key is the same edge.
abbrev pub new_edges : Graph → Graph → Graph
new_edges committed g = keep_if (λ r. not (contains r committed)) g

abbrev pub ids_of : Dict String Artifact → List String
ids_of [] = []
ids_of ((aid, a) ∷ arts) = a.id ∷ ids_of arts

-- `(commit.context_version or 0) > persisted`
unfoldable pub is_after : ℕ → Commit → Bool
is_after persisted c = ltb persisted (or_else c.context_version 0)

module _ (s : Schema) where
  unfoldable pub working_tree : Context → Json
  unfolding replay_state replay_relations dirty
  working_tree ctx = obj (
      field "artifacts"
        (obj (
          fields_of (artifact_to_dict s)
            (dirty (replay_state ctx.log.version ctx.log) ctx.artifacts)))
        (field "relations"
          (arr (
            items_of relation_to_dict
              (new_edges (replay_relations ctx.log.version ctx.log) ctx.relations)))
          (field "order" (arr (items_of text (ids_of ctx.artifacts))) end)))

  unfoldable pub entry : ℕ → Context → Json
  unfolding working_tree is_after
  entry persisted ctx = obj (
      field "commits"
        (arr (items_of (commit_to_dict s) (keep_if (is_after persisted) ctx.log.commits)))
        (field "events" (arr (items_of (event_to_dict s) ctx.events))
          (field "working_tree" (working_tree ctx) end)))

  module _ {St : Type 0} (b : AppendBackend St) where
    abbrev pub write_snapshot : String → Branch → St → St
    write_snapshot key x st = b.clear_entries key (b.kv.set key (context_to_dict s x) st)

    unfoldable pub snapshot_due : Option ℕ → String → Live → St → Bool
    unfolding needs_snapshot
    snapshot_due compact_every key x st =
        needs_snapshot (lookup key x.persisted) x.branch.context.log (b.kv.get key st)
        || compact_due compact_every (entry_count b key st)

    -- Without a mark a snapshot is due, so an entry starts from the version of the mark.
    unfoldable pub save_append : Option ℕ → String → Live → St → Live × St
    unfolding snapshot_due mark_persisted entry
    save_append compact_every key x st = (
      mark_persisted key x,
      if snapshot_due compact_every key x st
          then write_snapshot key x.branch st
          else b.append key (entry (or_else (lookup key x.persisted) (0, 0)).0 x.branch.context) st,
    )

  -- `SessionStore.save_session` on a store that cannot append.
  unfoldable pub save_blob : {St : Type 0} → KvBackend St → String → Live → St → Live × St
  unfolding mark_persisted
  save_blob b key x st = (mark_persisted key x, b.set key (context_to_dict s x.branch) st)
