-- ===== src/Persistence/Branches.antt =====
-- `BranchStore` of reactifact/branching.py: named branches in the store of the sessions.
use Prim.Native.String.{◌++◌, slice, len, compare}
use text.Mathlib.Text.{starts_with, is_le}
use text.Mathlib.TextLemmas.{append_assoc}
use reactifact.Prelude.{ℕ, String, ◌≡◌, Option, List, [], ◌∷◌, if◌then◌else◌}
use reactifact.Prelude.Dict.{Dict}
use reactifact.Result.{Result}
use reactifact.Json.{Json}
use reactifact.Codec.{Schema}
use reactifact.Persistence.Save.{Live}
use reactifact.Persistence.Sessions.{
  SessionStore, kv_of, save_session, load_session, delete_session,
}

unfoldable pub branch_key : String → String → String
branch_key session_id name = "branch:" ++ (session_id ++ (":" ++ name))

-- Names in the order of their texts.
unfoldable pub insert_name : String → List String → List String
insert_name x [] = x ∷ []
insert_name x (y ∷ ys) = if is_le (compare x y) then x ∷ y ∷ ys else y ∷ insert_name x ys

-- The names that follow the prefix.
unfoldable pub names_under : String → List String → List String
unfolding insert_name
names_under prefix [] = []
names_under prefix (key ∷ ks) =
    let rest = names_under prefix ks in
    if starts_with key prefix then insert_name (slice key (len prefix) (len key)) rest else rest

module _ {St : Type 0} (s : Schema) (store : SessionStore St) where
  unfoldable pub save_branch : String → String → Live → St → Live × St
  unfolding save_session branch_key
  save_branch session_id name x st = save_session s store (branch_key session_id name) x st

  unfoldable pub load_branch : Dict ℕ (Json → Json) → String → String → St → Result (Option Live)
  unfolding load_session branch_key
  load_branch migrations session_id name st =
      load_session s store migrations (branch_key session_id name) st

  unfoldable pub list_branches : String → St → List String
  unfolding names_under branch_key
  list_branches session_id st =
      names_under (branch_key session_id "") ((kv_of store.backend).keys_of st)

  unfoldable pub delete_branch : String → String → St → St
  unfolding branch_key
  delete_branch session_id name st = delete_session s store (branch_key session_id name) st

-- Two pairs of a session and a name share a key where a colon can be read either way.
pub branch_key_shared :
    (a b c : String) → branch_key (a ++ (":" ++ b)) c ≡ branch_key a (b ++ (":" ++ c))
unfolding branch_key
branch_key_shared a b c = rw (append_assoc a (":" ++ b) (":" ++ c), append_assoc ":" b (":" ++ c))
