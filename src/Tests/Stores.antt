-- ===== src/Tests/Stores.antt =====
-- The theorems on the context, at the context that the two commits leave.
use reactifact.Prelude.{
  ℕ, String, ◌≡◌, ◌≢◌, refl, Bool, false, not, ◌&&◌, ◌||◌, none, some, [], arith, ◌==◌, string_eq,
  keep_if,
}
use reactifact.Prelude.Dict.{lookup, insert, IsDistinct, has, values}
use reactifact.Prelude.Sets.{contains}
use reactifact.Result.{ok}
use reactifact.Model.{Class, app, class_eq}
use reactifact.Operations.{relation_eq}
use reactifact.CommitLog.{append, replay_state, replay_relations}
use reactifact.CommitLog.Chain.{IsValid}
use reactifact.Context.{
  Context, Event, empty_context, artifact_created, checkout, Diff, diff, create, update, log_commit,
  recompute_stale, reads_outdated, list_artifacts,
}
use reactifact.Context.TypeIndex.{IsIndexed}
use reactifact.Context.Listing.{create-IsIndexed, list_artifacts_scan, is_instance}
use reactifact.Context.Staleness.{
  IsKeyed, TracksStale, recompute_stale-TracksStale, update-TracksStale, log_commit-recompute_stale,
}
use reactifact.Context.Reachable.{
  Reachable, started, called, creating, logging, forking, Reachable-IsSound,
}
use reactifact.Context.Soundness.{IsSound}
use reactifact.Branching.{clone_context}
use reactifact.CommitLog.Lookup.{write_ids}
use reactifact.Context.Checkout.{held_at, checkout_lem}
use reactifact.Context.Diffs.{patched_at, diff_lem}
use reactifact.Tests.Data.{draft, second, two_commits, two_commits-IsValid, cites, edited}

edited-IsDistinct : IsDistinct edited.artifacts
unfolding lookup
edited-IsDistinct = (refl, (refl, tt))

edited_live : held_at "n" edited.artifacts ≡ lookup "n" (replay_state 2 two_commits)
unfolding lookup insert append replay_state
edited_live = refl

abbrev key : String
key = "n"

abbrev no_key : String
no_key = ""

named : key ≢ no_key
named = λ e. ground (arith, string_eq.beq_iff key no_key, e)

checkout_lem_example :
    (after : Context) × (checkout 1 edited ≡ ok after)
    × (held_at "n" after.artifacts ≡ lookup "n" (replay_state 1 two_commits))
    × (contains cites after.relations ≡ (
        contains cites (replay_relations 1 two_commits)
        || (contains cites edited.relations
            && not (contains cites (replay_relations two_commits.version two_commits)))))
    × IsValid after.log
    × (after.log.version ≡ 1)
    × (after.events ≡ [])
unfolding append
checkout_lem_example =
    checkout_lem 1 edited "n" cites two_commits-IsValid edited-IsDistinct edited_live named
      (omega arith) (omega arith)

diff_lem_example :
    (d : Diff) × (diff 1 2 edited ≡ ok d)
    × ((k : String)
        → patched_at k d (replay_state 1 two_commits) ≡ lookup k (replay_state 2 two_commits))
    × ((k : String) → (has k d.added && has k (replay_state 1 two_commits)) ≡ false)
unfolding append
diff_lem_example = diff_lem 1 2 edited tt (omega arith) (omega arith) (omega arith)

-- The context with its stale set computed.
abbrev scanned : Context
scanned = recompute_stale edited

scanned-IsKeyed : IsKeyed scanned
unfolding lookup recompute_stale
scanned-IsKeyed = record {
  keyed = λ k a e. ground (arith, e, string_eq.beq_iff "n" k, string_eq.beq_iff "r" k);
  log_valid = two_commits-IsValid;
}

update-TracksStale_example : TracksStale (update "n" draft scanned).0
update-TracksStale_example =
    update-TracksStale "n" draft scanned scanned-IsKeyed (recompute_stale-TracksStale edited)

log_commit-recompute_stale_example :
    contains "n" (recompute_stale (log_commit second scanned)).stale ≡ (
      contains "n" (log_commit second scanned).stale
      || (contains "n" (write_ids second.writes)
          && (has "n" scanned.artifacts && reads_outdated second.reads scanned.artifacts)))
log_commit-recompute_stale_example =
    log_commit-recompute_stale second "n" scanned (recompute_stale-TracksStale edited)

empty-IsIndexed : IsIndexed empty_context
unfolding lookup contains
empty-IsIndexed = record { artifacts_distinct = tt; types_distinct = tt; typed = λ c aid. refl }

no_note : lookup "n" empty_context.artifacts ≡ none
unfolding lookup
no_note = refl

abbrev pub created : Context
created = (create "n" draft none empty_context).0

pub created-IsIndexed : IsIndexed created
created-IsIndexed = create-IsIndexed "n" draft none empty_context no_note empty-IsIndexed

-- A commit after the creation, and a fork of what is then there.
abbrev forked : Context
forked = clone_context (log_commit second (create "n" draft none empty_context).0)

forked-Reachable : Reachable forked
forked-Reachable =
    called (called (called started (creating "n" draft none no_note)) (logging second)) forking

Reachable-IsSound_example : IsSound forked
Reachable-IsSound_example = Reachable-IsSound forked forked-Reachable

abbrev pub equal_class : Class → Class → Bool
equal_class c d = c == d

list_artifacts_scan_example :
    list_artifacts equal_class (some (app "Note")) created
    ≡ keep_if (is_instance equal_class (app "Note")) (values created.artifacts)
list_artifacts_scan_example = list_artifacts_scan equal_class (app "Note") created created-IsIndexed

abbrev pub event_of : ℕ → Event
event_of i = record {
  ident = i;
  type_ = artifact_created;
  artifact_type = app "Note";
  artifact_id = "n";
}
