-- ===== src/Persistence/Backends.antt =====
-- The key-value stores of reactifact/checkpoints.py: what `KVBackend` and `AppendBackend` promise,
-- and the store in memory.
use reactifact.Prelude.{
  ℕ, String, ◌≡◌, Option, none, some, List, [], ◌∷◌, ◌++◌, ◌==◌, if◌then◌else◌, string_eq, length,
}
use reactifact.Prelude.Dict.{Dict, lookup, insert, remove, keys, lookup-insert, lookup-remove}
use reactifact.Json.{Json}

pub record KvBackend (St : Type 0) : Type 0 where
  pub set : String → Json → St → St
  pub get : String → St → Option Json
  pub delete : String → St → St
  pub keys_of : St → List String
  pub get-set :
      (j k : String) (v : Json) (st : St)
      → get j (set k v st) ≡ (if k == j then some v else get j st)
  pub get-delete :
      (j k : String) (st : St) → get j (delete k st) ≡ (if k == j then none else get j st)

-- A store that keeps, beside a snapshot, a list of entries under each key.
pub record AppendBackend (St : Type 0) : Type 0 where
  pub kv : KvBackend St
  pub append : String → Json → St → St
  pub entries : String → St → List Json
  pub clear_entries : String → St → St
  pub get-append : (j k : String) (v : Json) (st : St) → kv.get j (append k v st) ≡ kv.get j st
  pub entries-set : (j k : String) (v : Json) (st : St) → entries j (kv.set k v st) ≡ entries j st
  pub entries-append :
      (j k : String) (v : Json) (st : St)
      → entries j (append k v st) ≡ (if k == j then entries j st ++ v ∷ [] else entries j st)
  pub get-clear_entries : (j k : String) (st : St) → kv.get j (clear_entries k st) ≡ kv.get j st
  pub entries-clear_entries :
      (j k : String) (st : St)
      → entries j (clear_entries k st) ≡ (if k == j then [] else entries j st)

-- `entry_count`, by default.
abbrev pub entry_count : {St : Type 0} → AppendBackend St → String → St → ℕ
entry_count b key st = length (b.entries key st)

-- `InMemoryKVBackend`; its deep copies are the values.
unfoldable pub in_memory : KvBackend (Dict String Json)
unfolding lookup insert remove
in_memory = record {
  set = insert;
  get = lookup;
  delete = remove;
  keys_of = keys;
  get-set = lookup-insert;
  get-delete = lookup-remove;
}
