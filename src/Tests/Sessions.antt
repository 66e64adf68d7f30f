-- ===== src/Tests/Sessions.antt =====
-- A session on a store of two tables, saved whole at first and then by an entry.
use reactifact.Prelude.{
  String, ◌≡◌, refl, ◌||◌, true, none, some, List, [], ◌∷◌, ◌++◌, arith, string_eq, or_else,
}
use reactifact.Prelude.Dict.{Dict, lookup, insert, remove, keys, lookup-insert, lookup-remove}
use reactifact.Prelude.Sets.{contains}
use reactifact.Result.{ok}
use reactifact.Model.{plain, app, class_of}
use reactifact.Artifact.{Artifact}
use reactifact.Operations.{Relation, relation_eq}
use reactifact.CommitLog.{append, place, replay_state, replay_relations}
use reactifact.Context.{Context, empty_context, create_target}
use reactifact.Branching.{Branch}
use reactifact.Json.{Json, null}
use reactifact.Codec.{context_to_dict, renumber}
use reactifact.Codec.Branches.{IsStorable, reloaded_branch, reloaded, context_reads_back}
use reactifact.Persistence.{
  KvBackend, AppendBackend, in_memory, Live, blob, saved_point, needs_snapshot, snapshot_due,
  save_append, is_dirty, Loading, read_entries, load_append, load_session, save_session,
}
use reactifact.Persistence.Branches.{list_branches, names_under, insert_name, branch_key}
use reactifact.Persistence.Snapshots.{save-load_snapshot}
use reactifact.Persistence.Appended.{load-save_append}
use reactifact.Persistence.Isolation.{save_session_elsewhere}
use reactifact.Tests.Data.{
  edited, one_commit, one_commit-IsValid, two_commits-IsValid, second, draft, summary, note, cites,
}
use reactifact.Tests.Codecs.{named, named-IsFaithful, edited-IsStorable, forked}

abbrev Tables : Type 0
Tables = Dict String Json × Dict String (List Json)

abbrev tables_kv : KvBackend Tables
tables_kv = record {
  set = λ k v st. (insert k v st.0, st.1);
  get = λ k st. lookup k st.0;
  delete = λ k st. (remove k st.0, remove k st.1);
  keys_of = λ st. keys st.0;
  get-set = λ j k v st. lookup-insert j k v st.0;
  get-delete = λ j k st. lookup-remove j k st.0;
}

tables : AppendBackend Tables
tables = record {
  kv = tables_kv;
  append = λ k v st. (st.0, insert k (or_else (lookup k st.1) [] ++ v ∷ []) st.1);
  entries = λ k st. or_else (lookup k st.1) [];
  clear_entries = λ k st. (st.0, remove k st.1);
  get-append = λ j k v st. refl;
  entries-set = λ j k v st. refl;
  entries-append = λ j k v st.
      ground (
        arith,
        lookup-insert j k (or_else (lookup k st.1) [] ++ v ∷ []) st.1,
        string_eq.beq_iff k j,
      );
  get-clear_entries = λ j k st. refl;
  entries-clear_entries = λ j k st. ground (arith, lookup-remove j k st.1);
}

abbrev fresh_session : Live
fresh_session = record { branch = forked; persisted = [] }

-- The first save has no mark, and writes the fork whole.
save-load_snapshot_example :
    load_append named [] tables "s"
      (save_append named tables (some 100) "s" fresh_session ([], [])).1
    ≡ ok (
        some (record {
          branch = reloaded_branch forked;
          persisted = insert "s" (saved_point forked) (("", saved_point forked) ∷ []);
        }))
save-load_snapshot_example =
    save-load_snapshot named named-IsFaithful [] tables (some 100) "s" fresh_session ([], [])
      edited-IsStorable edited-IsStorable (unfold snapshot_due needs_snapshot lookup in refl)

-- Under another id nothing is there.
save_session_elsewhere_example :
    load_session named
      (record { backend = blob in_memory; compact_every = none })
      []
      "t"
      (save_session named
        (record { backend = blob in_memory; compact_every = none })
        "s"
        fresh_session
        []).1
    ≡ load_session named (record { backend = blob in_memory; compact_every = none }) [] "t" []
save_session_elsewhere_example =
    save_session_elsewhere named [] (record { backend = blob in_memory; compact_every = none }) "s"
      "t" fresh_session [] refl

-- The context after the first of the two commits, as it is saved whole.
abbrev drafted : Branch
drafted = record {
  context = record empty_context {
    artifacts =
        ("n", record note { data_ = draft; history = []; version = 0 }) ∷ ("r", summary) ∷ [];
    relations = cites ∷ [];
    log = one_commit;
  };
  base = none;
  fork_name = "";
}

drafted-IsStorable : IsStorable drafted.context
unfolding class_of contains append place
drafted-IsStorable = record {
  chained = one_commit-IsValid;
  uniform = ((refl, refl, tt), ((refl, refl, tt), tt));
  edges = (refl, tt);
  baseline = tt;
}

abbrev drafted_store : Tables
drafted_store = (("s", context_to_dict named drafted) ∷ [], [])

-- A message of the user that no commit has, beside the two commits.
abbrev message : Artifact
message = record {
  id = "m";
  data_ = plain "Message" "hello";
  data_class = app "Message";
  created_by_commit = none;
  history = [];
  version = 0;
}

abbrev talked : Context
talked = record edited { artifacts = ("m", message) ∷ edited.artifacts }

abbrev talking : Live
talking = record {
  branch = record { context = talked; base = none; fork_name = "" };
  persisted = ("s", (1, 0)) ∷ [];
}

abbrev drafted_loading : Loading
drafted_loading = record { context = reloaded drafted.context; tree = none }

-- The second commit and the message are saved by an entry behind the first snapshot.
load-save_append_example :
    (y : Live) × (load_append named [] tables "s"
        (save_append named tables (some 100) "s" talking drafted_store).1
      ≡ ok (some y))
    × (y.branch.context.log ≡ talked.log)
    × (y.branch.context.events ≡ renumber drafted_loading.context.next_event talked.events)
    × ((k : String) (a : Artifact)
        → lookup k talked.artifacts ≡ some a
        → is_dirty (replay_state talked.log.version talked.log) k a ≡ true
        → lookup k y.branch.context.artifacts ≡ some a)
    × ((r : Relation)
        → contains r y.branch.context.relations ≡ (
            contains r (replay_relations talked.log.version talked.log)
            || contains r talked.relations))
unfolding lookup tables snapshot_due needs_snapshot append place class_of create_target read_entries
load-save_append_example =
    load-save_append named named-IsFaithful [] tables (some 100) "s" talking drafted_store
      (context_to_dict named drafted) (reloaded_branch drafted) drafted_loading
      (place second one_commit ∷ []) 0 refl
      (context_reads_back named named-IsFaithful [] drafted drafted-IsStorable tt) refl refl refl
      one_commit-IsValid two_commits-IsValid
      (record {
        commits = refl;
        baseline = refl;
        baseline_relations = refl;
        baseline_version = refl;
        baseline_head_id = refl;
      })
      ((tt, tt), tt) ((refl, refl, tt), edited-IsStorable.uniform) (refl, (refl, (refl, tt)))

-- A branch of the session `s:x` is listed with those of `s`, whose key it shares.
branches_listed :
    list_branches named
      (record { backend = blob in_memory; compact_every = none })
      "s"
      (("branch:s:b", null)
        ∷ ("s", null)
        ∷ (branch_key "s:x" "a", null)
        ∷ ("branch:s:a", null)
        ∷ [])
    ≡ "a" ∷ "b" ∷ "x:a" ∷ []
unfolding list_branches names_under insert_name branch_key in_memory
branches_listed = refl
