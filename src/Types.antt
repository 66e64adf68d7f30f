-- ===== src/Types.antt =====
-- reactifact/types.py: the stable names under which the classes of models are persisted. `ident` is
-- the identity of a spec as an object. The class attribute `TYPE_ID`, the qualified name of a class
-- and the import of a class by that name belong to Python, and are parameters.
pub mod Tables
pub mod Laws
use reactifact.Prelude.{
  ℕ, ◌+◌, String, Bool, true, false, Option, none, some, List, [], ◌∷◌, ◌==◌, if◌then◌else◌,
  string_eq, nat_eq, or_else, is_some,
}
use reactifact.Prelude.Dict.{Dict, lookup, insert, remove}
use reactifact.Result.{Result, ok, err, type_id_taken}
use reactifact.Model.{Class, class_eq}
use reactifact.Json.{Json}

pub record TypeSpec : Type 0 where
  pub ident : ℕ
  pub model : Class
  pub type_id : String
  pub aliases : List String
  pub migrate : Option (Json → Json)

-- The two global tables.
pub record Registry : Type 0 where
  pub specs : Dict Class TypeSpec
  pub by_id : Dict String TypeSpec
  pub next : ℕ

abbrev pub no_types : Registry
no_types = record { specs = []; by_id = []; next = 0 }

abbrev pub spec_keys : TypeSpec → List String
spec_keys s = s.type_id ∷ s.aliases

-- `if _BY_ID.get(key) is old: del _BY_ID[key]`
unfoldable pub drop_key : TypeSpec → String → Dict String TypeSpec → Dict String TypeSpec
drop_key old k ids = elim (lookup k ids) [
  | none ↦ ids
  | some s ↦ if s.ident == old.ident then remove k ids else ids
]

unfoldable pub drop_keys : TypeSpec → List String → Dict String TypeSpec → Dict String TypeSpec
unfolding drop_key
drop_keys old [] ids = ids
drop_keys old (k ∷ ks) ids = drop_keys old ks (drop_key old k ids)

unfoldable pub unregister : Class → Registry → Registry
unfolding drop_keys
unregister m reg = elim (lookup m reg.specs) [
  | none ↦ reg
  | some old ↦ record reg {
    specs = remove m reg.specs;
    by_id = drop_keys old (spec_keys old) reg.by_id;
  }
]

-- The first key that is another model's.
unfoldable pub taken : Class → List String → Dict String TypeSpec → Option String
taken m [] ids = none
taken m (k ∷ ks) ids =
    let rest = taken m ks ids in
    elim (lookup k ids) [ none ↦ rest | some s ↦ if s.model == m then rest else some k ]

unfoldable pub set_keys : TypeSpec → List String → Dict String TypeSpec → Dict String TypeSpec
set_keys s [] ids = ids
set_keys s (k ∷ ks) ids = set_keys s ks (insert k s ids)

-- Python's `x or y` on texts that may be missing: the empty text counts as missing.
abbrev pub text_or : Option String → String → String
text_or none y = y
text_or (some x) y = if x == "" then y else x

pub record Registered : Type 0 where
  pub registry : Registry
  pub outcome : Result (Unit {0})

-- `register`: the model's old spec is gone before the new keys are checked.
unfoldable pub register :
    (Class → Option String)
    → (Class → String)
    → Class
    → Option String
    → List String
    → Option (Json → Json)
    → Registry
    → Registered
unfolding unregister taken set_keys
register type_id_attr qualname m type_id aliases migrate reg =
    let spec : TypeSpec = record {
      ident = reg.next;
      model = m;
      type_id = text_or type_id (text_or (type_id_attr m) (qualname m));
      aliases = aliases;
      migrate = migrate;
    } in
    let without = unregister m reg in
    elim (taken m (spec_keys spec) without.by_id) [
      | some k ↦ record {
        registry = record without { next = reg.next + 1 };
        outcome = err (type_id_taken k);
      }
      | none ↦ record {
        registry = record {
          specs = insert m spec without.specs;
          by_id = set_keys spec (spec_keys spec) without.by_id;
          next = reg.next + 1;
        };
        outcome = ok tt;
      }
    ]

unfoldable pub type_id_of : (Class → Option String) → (Class → String) → Registry → Class → String
type_id_of type_id_attr qualname reg m = elim (lookup m reg.specs) [
  | some s ↦ s.type_id
  | none ↦ text_or (type_id_attr m) (qualname m)
]

-- `resolve`; `none` is the `TypeNotFoundError`.
unfoldable pub resolve : (String → Option Class) → Registry → String → Option Class
resolve import_class reg type_id = elim (lookup type_id reg.by_id) [
  | some s ↦ some s.model
  | none ↦ import_class type_id
]

unfoldable pub migrate_payload : Registry → String → Json → Json
migrate_payload reg type_id raw = elim (lookup type_id reg.by_id) [
  | none ↦ raw
  | some s ↦ elim s.migrate [ none ↦ raw | some f ↦ f raw ]
]
