-- ===== src/Persistence/Sessions.antt =====
-- `Session` and `SessionStore` of reactifact/session.py, and `to_kv` and `from_kv` of a context.
-- The resources of a session, which are handles of the process, are not modelled.
use text.Mathlib.Text.{starts_with}
use reactifact.Prelude.{
  ℕ, String, Bool, true, false, not, Option, none, some, List, [], ◌∷◌, is_some, keep_if, string_eq,
}
use reactifact.Prelude.Dict.{Dict}
use reactifact.Result.{Result, ok, ◌>>=◌}
use reactifact.Context.{empty_context}
use reactifact.Branching.{Branch}
use reactifact.Json.{Json}
use reactifact.Codec.{Schema, context_from_dict}
use reactifact.Persistence.Backends.{KvBackend, AppendBackend}
use reactifact.Persistence.Save.{Live, saved_point, save_append, save_blob}
use reactifact.Persistence.Load.{load_append}

-- The test `isinstance(self.backend, AppendBackend)`.
pub data StoreBackend (St : Type 0) : Type 0 where
  blob : KvBackend St → StoreBackend St
  appending : AppendBackend St → StoreBackend St

abbrev pub kv_of : {St : Type 0} → StoreBackend St → KvBackend St
kv_of (blob b) = b
kv_of (appending b) = b.kv

pub record SessionStore (St : Type 0) : Type 0 where
  pub backend : StoreBackend St
  pub compact_every : Option ℕ

pub record Session : Type 0 where
  pub session_id : String
  pub context : Live
  pub loaded : Bool

abbrev pub empty_branch : Branch
empty_branch = record { context = empty_context; base = none; fork_name = "" }

-- `from_kv`: `from_dict` marks the context under the empty key.
unfoldable pub from_kv : Schema → Dict ℕ (Json → Json) → Option Json → Result (Option Live)
unfolding context_from_dict
from_kv s migrations none = ok none
from_kv s migrations (some d) = do
  b ← context_from_dict s migrations d
  ok (some (record { branch = b; persisted = ("", saved_point b) ∷ [] }))

module _ {St : Type 0} (s : Schema) (store : SessionStore St) where
  unfoldable pub save_session : String → Live → St → Live × St
  unfolding save_append save_blob
  save_session session_id x st = elim store.backend [
    | appending b ↦ save_append s b store.compact_every session_id x st
    | blob b ↦ save_blob s b session_id x st
  ]

  unfoldable pub load_session : Dict ℕ (Json → Json) → String → St → Result (Option Live)
  unfolding load_append from_kv
  load_session migrations session_id st = elim store.backend [
    | appending b ↦ load_append s migrations b session_id st
    | blob b ↦ from_kv s migrations (b.get session_id st)
  ]

  abbrev pub has_session : String → St → Bool
  has_session session_id st = is_some ((kv_of store.backend).get session_id st)

  -- The keys of the branches are left out.
  abbrev pub list_sessions : St → List String
  list_sessions st =
      keep_if (λ key. not (starts_with key "branch:")) ((kv_of store.backend).keys_of st)

  abbrev pub delete_session : String → St → St
  delete_session session_id st = (kv_of store.backend).delete session_id st

  abbrev pub as_session : String → Option Live → Session
  as_session session_id none = record {
    session_id = session_id;
    context = record { branch = empty_branch; persisted = [] };
    loaded = false;
  }
  as_session session_id (some x) = record { session_id = session_id; context = x; loaded = true }

  unfoldable pub open_session : Dict ℕ (Json → Json) → String → St → Result Session
  unfolding load_session
  open_session migrations session_id st =
      load_session migrations session_id st >>= λ found. ok (as_session session_id found)
