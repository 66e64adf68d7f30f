-- ===== src/Tests/Data.antt =====
-- A log of two commits on one note and a report that reads it, and the context that it leaves.
use reactifact.Prelude.{none, some, [], ◌∷◌}
use reactifact.Model.{Model, plain, app}
use reactifact.Artifact.{Artifact}
use reactifact.Operations.{create, update, link, Relation}
use reactifact.Commit.{Commit, OpType}
use reactifact.CommitLog.{CommitLog, append, empty_log}
use reactifact.CommitLog.Chain.{IsValid, empty_log-IsValid, append-IsValid}
use reactifact.Context.{Context, empty_context}

abbrev pub draft : Model
draft = plain "Note" "{\"text\": \"draft\"}"

abbrev pub final_ : Model
final_ = plain "Note" "{\"text\": \"final\"}"

abbrev pub report : Model
report = plain "Report" "{}"

abbrev pub first : Commit
first = record {
  id = "c0";
  author = "writer";
  message = "";
  operations =
      create draft (some "n") none ∷ create report (some "r") none ∷ link "r" "cites" "n" ∷ [];
  parent_id = none;
  context_version = none;
  reads = [];
  writes =
      record { artifact_id = "n"; version = 0; op_type = OpType.create }
      ∷ record { artifact_id = "r"; version = 0; op_type = OpType.create }
      ∷ [];
}

abbrev pub second : Commit
second = record {
  id = "c1";
  author = "editor";
  message = "";
  operations = update "n" final_ ∷ [];
  parent_id = none;
  context_version = none;
  reads = record { artifact_id = "n"; version = 0 } ∷ [];
  writes = record { artifact_id = "n"; version = 1; op_type = OpType.update } ∷ [];
}

abbrev pub one_commit : CommitLog
one_commit = append first empty_log

abbrev pub two_commits : CommitLog
two_commits = append second one_commit

pub one_commit-IsValid : IsValid one_commit
one_commit-IsValid = append-IsValid first empty_log empty_log-IsValid

pub two_commits-IsValid : IsValid two_commits
two_commits-IsValid = append-IsValid second one_commit one_commit-IsValid

abbrev pub note : Artifact
note = record {
  id = "n";
  data_ = final_;
  data_class = app "Note";
  created_by_commit = none;
  history = draft ∷ [];
  version = 1;
}

abbrev pub summary : Artifact
summary = record {
  id = "r";
  data_ = report;
  data_class = app "Report";
  created_by_commit = none;
  history = [];
  version = 0;
}

abbrev pub cites : Relation
cites = record { source_id = "r"; relation = "cites"; target_id = "n" }

-- The context that the two commits leave.
abbrev pub edited : Context
edited = record empty_context {
  artifacts = ("n", note) ∷ ("r", summary) ∷ [];
  relations = cites ∷ [];
  log = two_commits;
  by_type = (app "Note", "n" ∷ []) ∷ (app "Report", "r" ∷ []) ∷ [];
}
