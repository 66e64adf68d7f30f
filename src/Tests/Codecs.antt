-- ===== src/Tests/Codecs.antt =====
-- The dictionaries of a context of two commits and of a fork of it, with every class found under
-- its name and every model written as its fields.
use reactifact.Prelude.{ℕ, zero, suc, ◌≡◌, refl, some, []}
use reactifact.Result.{Result, ok, err, type_error, ◌>>=◌}
use reactifact.Model.{
  Model, plain, question, action, Class, app, pending_question, pending_action, Status, pending,
  dispatched, failed, class_of,
}
use reactifact.Prelude.Sets.{contains}
use reactifact.CommitLog.{append, place}
use reactifact.Branching.{Branch}
use reactifact.Json.{
  Json, flag, num, text, arr, nil, cons, optional_text, optional_num, as_optional_text,
  as_optional_num,
}
use reactifact.Json.Lists.{optional_text_reads_back, optional_num_reads_back}
use reactifact.Codec.{Schema, IsFaithful, context_to_dict, context_from_dict}
use reactifact.Codec.Branches.{IsStorable, reloaded_branch, context_reads_back}
use reactifact.Tests.Data.{edited, two_commits-IsValid}
use reactifact.Tests.Naming.{name_of, class_named, class_named-name_of}

abbrev status_to_num : Status → ℕ
status_to_num pending = 0
status_to_num dispatched = 1
status_to_num failed = 2

abbrev status_of : ℕ → Status
status_of zero = pending
status_of (suc zero) = dispatched
status_of (suc (suc n)) = failed

abbrev pub dump : Model → Json
dump (plain c x) = text x
dump (question q) = arr (
    cons (text q.question) (
      cons (text q.kind) (
        cons (text q.notes) (
          cons (flag q.answered)
            (cons (optional_text q.resolution) (cons (optional_num q.resolved_at) nil))))))
dump (action a) = arr (
    cons (text a.kind) (
      cons (text a.idempotency_key) (
        cons (text a.payload) (
          cons (num (status_to_num a.status)) (
            cons (num a.attempts)
              (cons (optional_num a.dispatched_at) (cons (optional_text a.error) nil)))))))

unfoldable pub validate : Class → Json → Result Model
validate (app c) (text x) = ok (plain c x)
validate pending_question
      (arr (cons (text q) (cons (text k) (cons (text n) (cons (flag a) (cons r (cons t nil))))))) =
    do
      resolution ← as_optional_text r
      resolved_at ← as_optional_num t
      ok (
          question (record {
            question = q;
            kind = k;
            notes = n;
            answered = a;
            resolution = resolution;
            resolved_at = resolved_at;
          }))
validate pending_action
      (arr (
        cons
          (text k)
          (cons (text i) (cons (text p) (cons (num s) (cons (num n) (cons t (cons e nil)))))))) =
    do
      dispatched_at ← as_optional_num t
      error ← as_optional_text e
      ok (
          action (record {
            kind = k;
            idempotency_key = i;
            payload = p;
            status = status_of s;
            attempts = n;
            dispatched_at = dispatched_at;
            error = error;
          }))
validate _ _ = err type_error

abbrev pub named : Schema
named = record {
  type_id_of = name_of;
  resolve = class_named;
  migrate_payload = λ t d. d;
  model_dump = dump;
  model_validate = validate;
  bare_name = app;
  fresh_id = λ d. "new";
}

status_reads_back : (s : Status) → status_of (status_to_num s) ≡ s
status_reads_back pending = refl
status_reads_back dispatched = refl
status_reads_back failed = refl

pub validates : (m : Model) → validate (class_of m) (dump m) ≡ ok m
unfolding validate class_of
validates (plain c x) = refl
validates (question q) =
    rw (optional_text_reads_back q.resolution, optional_num_reads_back q.resolved_at)
validates (action a) = rw (
  status_reads_back a.status,
  optional_num_reads_back a.dispatched_at,
  optional_text_reads_back a.error,
)

pub named-IsFaithful : IsFaithful named
named-IsFaithful = record { resolves = class_named-name_of; validates = validates }

pub edited-IsStorable : IsStorable edited
unfolding class_of contains append place
edited-IsStorable = record {
  chained = two_commits-IsValid;
  uniform = ((refl, refl, (refl, tt)), ((refl, refl, tt), tt));
  edges = (refl, tt);
  baseline = tt;
}

abbrev pub forked : Branch
forked = record { context = edited; base = some edited; fork_name = "try" }

context_reads_back_example :
    context_from_dict named [] (context_to_dict named forked) ≡ ok (reloaded_branch forked)
context_reads_back_example =
    context_reads_back named named-IsFaithful [] forked edited-IsStorable edited-IsStorable
