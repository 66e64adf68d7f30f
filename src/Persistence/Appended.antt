-- ===== src/Persistence/Appended.antt =====
-- A context that is saved by an entry is loaded with its log, its events and its working tree.
use reactifact.Prelude.{
  ℕ, String, ◌≡◌, ◌∙◌, ap, true, false, ◌||◌, Option, none, some, List, [], ◌∷◌, ◌++◌, keep_if,
  string_eq, ==_refl, inl, inr,
}
use reactifact.Prelude.Dict.{Dict, lookup, IsDistinct}
use reactifact.Prelude.Sets.{contains}
use reactifact.Result.{ok, ◌>>=◌, Result-cases}
use reactifact.Artifact.{Artifact}
use reactifact.Operations.{Relation, relation_eq}
use reactifact.Commit.{Commit}
use reactifact.CommitLog.{replay_state, replay_relations}
use reactifact.CommitLog.Chain.{IsValid}
use reactifact.Context.{Context, rebuild_indices, recompute_stale, reindex_by_type}
use reactifact.Branching.{Branch}
use reactifact.Json.{Json}
use reactifact.Json.Lists.{read_items-items_of, ReadsBack-all}
use reactifact.Codec.{
  Schema, IsFaithful, commit_to_dict, commit_from_dict, renumber, context_from_dict,
}
use reactifact.Codec.Objects.{commit_reads_back}
use reactifact.Codec.Roundtrip.{AllStorable, unnumbered, events_read_back}
use reactifact.Codec.Branches.{renumber-unnumbered}
use reactifact.Persistence.Backends.{AppendBackend}
use reactifact.Persistence.Save.{
  Live, is_after, is_dirty, working_tree, entry, snapshot_due, save_append, mark_persisted,
}
use reactifact.Persistence.Load.{
  Loading, apply_all, apply_working_tree, replace_events, read_events, last_tree, read_entry,
  read_entries, finish_loading, loaded, load_from, load_append, load_append_stored,
}
use reactifact.Persistence.Extensions.{Extends, extended_once, added-commits}
use reactifact.Persistence.Commits.{AllApplicable, apply_all-Grown}
use reactifact.Persistence.Trees.{tree_of, tree_reads_back, lookup-restored, contains-restored}

read_entries-append :
    (s : Schema) (ds : List Json) (d : Json) (l : Loading)
    → read_entries s (ds ++ d ∷ []) l ≡ (read_entries s ds l >>= read_entry s d)
unfolding read_entries
read_entries-append s [] d l = elim (Result-cases (read_entry s d l)) [
  | inl (x, h) ↦ rw h
  | inr (why, h) ↦ rw h
]
read_entries-append s (e ∷ ds) d l = elim (Result-cases (read_entry s e l)) [
  | inl (x, h) ↦ rw h (read_entries-append s ds d x)
  | inr (why, h) ↦ rw h
]

module _ (s : Schema) (f : IsFaithful s) where
  -- An entry, once its commits are applied.
  entry_reads_back :
      (cs : List Commit) (p : ℕ) (live after : Context) (l : Loading)
      → keep_if (is_after p) live.log.commits ≡ cs
      → apply_all cs l.context ≡ ok after
      → read_entry s (entry s p live) l
        ≡ ok (record {
          context = replace_events (unnumbered live.events) after;
          tree = some (working_tree s live);
        })
  unfolding read_entry entry read_events last_tree
  entry_reads_back cs p live after l e applied = rw (
    e,
    read_items-items_of (commit_to_dict s) (commit_from_dict s) cs
        (ReadsBack-all (commit_to_dict s) (commit_from_dict s) (commit_reads_back s f) cs),
    applied,
    events_read_back s f live.events,
  )

  -- The context that the entry leads to.
  abbrev restored : Context → Context → Context
  restored live after =
      rebuild_indices
        (apply_working_tree (tree_of live) (replace_events (unnumbered live.events) after))

  -- What the restored context has of the saved one, whose log it has reached.
  restored_lem :
      (live after : Context)
      → IsDistinct live.artifacts
      → after.log ≡ live.log
      → ((k : String) (a : Artifact)
          → lookup k live.artifacts ≡ some a
          → is_dirty (replay_state live.log.version live.log) k a ≡ true
          → lookup k (restored live after).artifacts ≡ some a)
        × ((r : Relation)
            → contains r (restored live after).relations ≡ (
                contains r (replay_relations live.log.version live.log)
                || contains r live.relations))
  unfolding apply_working_tree rebuild_indices recompute_stale reindex_by_type replace_events
  restored_lem live after h same = (
    λ k a e d.
        lookup-restored (replay_state live.log.version live.log) live.artifacts _ _ k a h e d,
    λ r. rw same (contains-restored (replay_relations live.log.version live.log) live.relations r),
  )

  -- The part of a load after the snapshot and the entries before this one.
  loads_back :
      (migrations : Dict ℕ (Json → Json)) (key : String) (snapshot d : Json) (ds : List Json)
      (saved : Branch) (l : Loading) (live after : Context)
      → AllStorable live.artifacts
      → context_from_dict s migrations snapshot ≡ ok saved
      → read_entries s ds (record { context = saved.context; tree = none }) ≡ ok l
      → read_entry s d l
        ≡ ok (record {
          context = replace_events (unnumbered live.events) after;
          tree = some (working_tree s live);
        })
      → load_from s migrations key snapshot (ds ++ d ∷ [])
        ≡ ok (loaded s key saved (restored live after))
  unfolding load_from finish_loading
  loads_back migrations key snapshot d ds saved l live after u e reached last = rw (
    e,
    read_entries-append s ds d (record { context = saved.context; tree = none }),
    reached,
    last,
    tree_reads_back s f live u,
  )

  -- Where no snapshot is due, and the context extends, by commits that say what they create, the
  -- one that the snapshot and the entries in the store lead to, with that one's version as its
  -- mark: after `save_append`, `load_append` returns a context with the same log, with the pending
  -- events as new ones, with every artifact that the commits do not give as it was, and with the
  -- edges of the commits and those of the context.
  pub load-save_append :
      (migrations : Dict ℕ (Json → Json)) {St : Type 0} (b : AppendBackend St)
      (compact_every : Option ℕ) (key : String) (x : Live) (st : St) (snapshot : Json)
      (saved : Branch) (l : Loading) (cs : List Commit) (compacted : ℕ)
      → b.kv.get key st ≡ some snapshot
      → context_from_dict s migrations snapshot ≡ ok saved
      → read_entries s (b.entries key st) (record { context = saved.context; tree = none }) ≡ ok l
      → lookup key x.persisted ≡ some (l.context.log.version, compacted)
      → snapshot_due s b compact_every key x st ≡ false
      → IsValid l.context.log
      → IsValid x.branch.context.log
      → Extends cs l.context.log x.branch.context.log
      → AllApplicable cs
      → AllStorable x.branch.context.artifacts
      → IsDistinct x.branch.context.artifacts
      → (y : Live) × (load_append s migrations b key (save_append s b compact_every key x st).1
          ≡ ok (some y))
        × (y.branch.context.log ≡ x.branch.context.log)
        × (y.branch.context.events ≡ renumber l.context.next_event x.branch.context.events)
        × ((k : String) (a : Artifact)
            → lookup k x.branch.context.artifacts ≡ some a
            → is_dirty (replay_state x.branch.context.log.version x.branch.context.log) k a ≡ true
            → lookup k y.branch.context.artifacts ≡ some a)
        × ((r : Relation)
            → contains r y.branch.context.relations ≡ (
                contains r (replay_relations x.branch.context.log.version x.branch.context.log)
                || contains r x.branch.context.relations))
  unfolding save_append mark_persisted apply_working_tree rebuild_indices recompute_stale
      reindex_by_type replace_events
  load-save_append migrations b compact_every key x st snapshot saved l cs compacted stored e
        reached mark due vl vx ext app u h =
      let live = x.branch.context in
      let p = l.context.log.version in
      let d = entry s p live in
      let (added, linked) = added-commits cs l.context.log live.log vl vx ext in
      let (after, applied, g) = apply_all-Grown cs l.context vl app linked in
      let same : after.log ≡ live.log =
        extended_once cs l.context.log after.log live.log g.extended ext g.chained vx in
      let parts = restored_lem live after h same in
      (
        loaded s key saved (restored live after),
        rw (due, mark)
            (load_append_stored s migrations b key (b.append key d st) snapshot
                (b.entries key st ++ d ∷ []) (b.get-append key key d st ∙ stored)
                (b.entries-append key key d st ∙ rw (==_refl key))
              ∙ rw (
                  loads_back migrations key snapshot d (b.entries key st) saved l live after u e
                    reached (entry_reads_back cs p live after l added applied))),
        same,
        ap (λ n. renumber n (unnumbered live.events)) g.numbered
            ∙ renumber-unnumbered l.context.next_event live.events,
        parts.0,
        parts.1,
      )
