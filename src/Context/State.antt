-- ===== src/Context/State.antt =====
-- The state of a context. What only serves serialisation, streaming or the process at hand
-- (`resources`, `_hub`, `_persisted`) is not modelled; the fork base stands in `Branching`.
use reactifact.Prelude.{
  ℕ, ◌+◌, String, Bool, true, false, none, some, List, [], ◌∷◌, ◌++◌, ◌==◌, ◌&&◌, ltb, or_else,
  if◌then◌else◌, string_eq,
}
use reactifact.Prelude.Dict.{Dict, lookup, insert}
use reactifact.Prelude.Sets.{add, discard}
use reactifact.Model.{Class, class_eq}
use reactifact.Artifact.{Artifact}
use reactifact.RelationGraph.{Graph}
use reactifact.Commit.{Read}
use reactifact.CommitLog
use reactifact.CommitLog.{CommitLog, empty_log, producing_commit}

pub data EventType : Type 0 where
  artifact_created artifact_updated artifact_deleted artifact_stale : EventType

-- `ident` is the identity of the object, which `consume_events` compares.
pub record Event : Type 0 where
  pub ident : ℕ
  pub type_ : EventType
  pub artifact_type : Class
  pub artifact_id : String

-- `next_event` is the identity that the next event gets.
pub record Context : Type 0 where
  pub artifacts : Dict String Artifact
  pub events : List Event
  pub log : CommitLog
  pub relations : Graph
  pub stale : List String
  pub by_type : Dict Class (List String)
  pub next_event : ℕ

abbrev pub empty_context : Context
empty_context = record {
  artifacts = [];
  events = [];
  log = empty_log;
  relations = [];
  stale = [];
  by_type = [];
  next_event = 0;
}

-- `self._events.append(Event(…))`
unfoldable pub emit : EventType → Class → String → Context → Context
emit t c aid ctx = record ctx {
  events =
      ctx.events
      ++ record { ident = ctx.next_event; type_ = t; artifact_type = c; artifact_id = aid } ∷ [];
  next_event = ctx.next_event + 1;
}

-- `self._by_type.setdefault(cls, set()).add(aid)`
unfoldable pub add_typed : Class → String → Dict Class (List String) → Dict Class (List String)
add_typed c aid bt = insert c (add aid (or_else (lookup c bt) [])) bt

-- `self._by_type.get(cls, set()).discard(aid)`
unfoldable pub discard_typed : Class → String → Dict Class (List String) → Dict Class (List String)
discard_typed c aid bt = elim (lookup c bt) [ none ↦ bt | some s ↦ insert c (discard aid s) bt ]

-- Whether a commit read the artifact at an older version than `v`.
unfoldable pub read_older : String → ℕ → List Read → Bool
read_older aid v [] = false
read_older aid v (r ∷ rs) =
    if (r.artifact_id == aid) && ltb r.version v then true else read_older aid v rs

-- The loop of `_dependents_of` over the ids that the log names.
unfoldable pub outdated : String → ℕ → List String → Context → List Artifact
unfolding read_older producing_commit
outdated aid v [] ctx = []
outdated aid v (d ∷ ids) ctx =
    let rest = outdated aid v ids ctx in
    elim (lookup d ctx.artifacts) [
      | none ↦ rest
      | some a ↦ elim (producing_commit d ctx.log) [
        | none ↦ rest
        | some c ↦ if read_older aid v c.reads then a ∷ rest else rest
      ]
    ]

-- `_dependents_of`
unfoldable pub dependents_of : String → Context → List Artifact
unfolding outdated CommitLog.dependents_of
dependents_of aid ctx = elim (lookup aid ctx.artifacts) [
  | none ↦ []
  | some current ↦ outdated aid current.version (CommitLog.dependents_of aid ctx.log) ctx
]
