-- ===== src/Tests/Merges.antt =====
-- The theorems on the merge, at branches of the context that the two commits leave.
use mathlib.Core.Option
use reactifact.Prelude.{
  String, ◌≡◌, refl, true, false, ◌||◌, none, some, List, [], ◌∷◌, arith, if◌then◌else◌, string_eq,
  opt_beq, opt_beq_iff,
}
use reactifact.Prelude.Dict.{lookup, insert}
use reactifact.Prelude.Sets.{contains, union}
use reactifact.Result.{ok, err, merge_conflict}
use reactifact.Model.{pending_action, Model, action, Status}
use reactifact.Artifact.{Artifact}
use reactifact.Context.{Context, empty_context}
use reactifact.Branching.{
  Dumps, lacks_status, is_undispatched, Branch, merge_contexts, data_sig, intent, is_dispatched,
}
use reactifact.Branching.Adopt.{merge_context_from}
use reactifact.CommitLog.{replay_state}
use reactifact.Branching.Verdicts.{intent_at, diverged}
use reactifact.Branching.Merge.{
  merged_intent, merged_dispatched, refused_conflicts, merge_contexts-returns,
}
use reactifact.Runtime.Replay.{data_at}
use reactifact.Tests.Data.{final_, draft, report, note, summary, edited}

-- Dumps that tell questions by their text and actions by their key.
abbrev texts : Dumps
texts = record { dump_question = λ q. q.question; dump_intent = λ kind key payload. key }

abbrev in_order : List String → List String
in_order ids = ids

in_order_keeps : (k : String) (ids : List String) → contains k (in_order ids) ≡ contains k ids
in_order_keeps k ids = refl

abbrev branch_of : Context → Branch
branch_of ctx = record { context = ctx; base = some edited; fork_name = "fork" }

-- The branch in which the note was revised again.
abbrev revised : Branch
revised =
    branch_of
      (record edited { artifacts = ("n", record note { data_ = report }) ∷ ("r", summary) ∷ [] })

same_as_base :
    (k : String) (other : Context)
    → diverged texts
        (lookup k edited.artifacts)
        (lookup k edited.artifacts)
        (lookup k other.artifacts)
      ≡ false
same_as_base k other = ground (
  arith,
  opt_beq_iff (data_sig texts (lookup k edited.artifacts))
      (data_sig texts (lookup k edited.artifacts)),
)

plain_main :
    (k : String)
    → lacks_status texts (lookup k edited.artifacts) (lookup k revised.context.artifacts) ≡ false
unfolding lacks_status lookup is_undispatched
plain_main k = ground arith

abbrev main : Branch
main = branch_of edited

merge_contexts-returns_example :
    (merged : Branch) × (merge_contexts texts in_order "m" "" main revised ≡ ok merged)
merge_contexts-returns_example =
    merge_contexts-returns texts in_order "m" "" main revised in_order_keeps
      (λ k. same_as_base k revised.context) plain_main

returned : (merged : Branch) × (merge_contexts texts in_order "m" "" main revised ≡ ok merged)
returned =
    merge_contexts-returns texts in_order "m" "" main revised in_order_keeps
      (λ k. same_as_base k revised.context) plain_main

merged_intent_example : intent_at texts "n" returned.0.context ≡ (
    if opt_beq (intent_at texts "n" edited) (intent_at texts "n" edited)
    then intent_at texts "n" revised.context
    else intent_at texts "n" edited)
merged_intent_example =
    merged_intent texts in_order "m" "" main revised in_order_keeps returned.0 returned.1 "n"

abbrev rewritten : Branch
rewritten =
    branch_of
      (record edited { artifacts = ("n", record note { data_ = draft }) ∷ ("r", summary) ∷ [] })

clash : merge_contexts texts in_order "m" "" rewritten revised ≡ err (merge_conflict ("n" ∷ []))
unfolding merge_contexts lookup insert contains union
clash = refl

refused_conflicts_example :
    contains {A = String} "r" ("n" ∷ [])
    ≡ diverged texts
        (lookup "r" edited.artifacts)
        (lookup "r" rewritten.context.artifacts)
        (lookup "r" revised.context.artifacts)
refused_conflicts_example =
    refused_conflicts texts in_order "m" "" rewritten revised in_order_keeps ("n" ∷ []) clash "r"

abbrev mail : Status → Model
mail s = action (record {
  kind = "mail";
  idempotency_key = "k";
  payload = "{}";
  status = s;
  attempts = 0;
  dispatched_at = none;
  error = none;
})

abbrev holding : Status → Artifact
holding s = record {
  id = "a";
  data_ = mail s;
  data_class = pending_action;
  created_by_commit = none;
  history = [];
  version = 0;
}

abbrev with_action : Status → Context
with_action s = record empty_context { artifacts = ("a", holding s) ∷ [] }

sending_acts :
    (k : String)
    → lacks_status texts
        (lookup k (with_action Status.pending).artifacts)
        (lookup k (with_action Status.dispatched).artifacts)
      ≡ false
unfolding lacks_status lookup is_undispatched
sending_acts k = ground arith

abbrev waiting : Branch
waiting = record {
  context = with_action Status.pending;
  base = some (with_action Status.pending);
  fork_name = "fork";
}

abbrev sent : Branch
sent = record {
  context = with_action Status.dispatched;
  base = some (with_action Status.pending);
  fork_name = "fork";
}

sent_returns : (merged : Branch) × (merge_contexts texts in_order "m" "" waiting sent ≡ ok merged)
sent_returns =
    merge_contexts-returns texts in_order "m" "" waiting sent in_order_keeps
      (λ k. ground (
        arith,
        opt_beq_iff (data_sig texts (lookup k waiting.context.artifacts))
            (data_sig texts (lookup k waiting.context.artifacts)),
      ))
      sending_acts

held_action : (s : Status) → lookup "a" (with_action s).artifacts ≡ some (holding s)
unfolding lookup
held_action s = refl

alike : intent texts (mail Status.pending) ≡ intent texts (mail Status.dispatched)
unfolding intent
alike = refl

one_sent : (is_dispatched (mail Status.pending) || is_dispatched (mail Status.dispatched)) ≡ true
unfolding is_dispatched
one_sent = refl

merged_dispatched_example :
    Option.map is_dispatched (data_at "a" sent_returns.0.context.artifacts) ≡ some true
merged_dispatched_example =
    merged_dispatched texts in_order "m" "" waiting sent in_order_keeps sent_returns.0
      sent_returns.1 "a" (holding Status.pending) (holding Status.dispatched)
      (held_action Status.pending) (held_action Status.dispatched) refl refl alike one_sent

-- The two-way merge adopts what is absent; its commit does not replay to it.
abbrev two_way : Context
two_way = merge_context_from "m" "new" empty_context edited

two_way_adopts :
    (data_at "n" two_way.artifacts ≡ some final_)
    × (lookup "n" (replay_state two_way.log.version two_way.log) ≡ none)
unfolding merge_context_from lookup insert replay_state contains
two_way_adopts = (refl, refl)
