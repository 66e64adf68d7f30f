-- ===== src/Codec/Schemas.antt =====
-- What the dictionaries need to know of the models: their names, and Pydantic's `model_dump` and
-- `model_validate`.
use reactifact.Prelude.{String, ◌≡◌, Option, none, some}
use reactifact.Result.{Result, ok, err, unknown_type}
use reactifact.Model.{Model, Class, class_of}
use reactifact.Json.{Json}
use reactifact.Types
use reactifact.Types.{Registry}

-- `resolve` gives `none` for a `TypeNotFoundError`. `bare_name` stands for a text in the place of a
-- class, which an event keeps when its class cannot be found. `fresh_id` gives the `uuid4` of an
-- artifact whose dictionary has an empty id.
pub record Schema : Type 0 where
  pub type_id_of : Class → String
  pub resolve : String → Option Class
  pub migrate_payload : String → Json → Json
  pub model_dump : Model → Json
  pub model_validate : Class → Json → Result Model
  pub bare_name : String → Class
  pub fresh_id : Json → String

-- The schema that the tables of reactifact/types.py make up.
unfoldable pub schema_of :
    (Class → Option String)
    → (Class → String)
    → (String → Option Class)
    → (Model → Json)
    → (Class → Json → Result Model)
    → (String → Class)
    → (Json → String)
    → Registry
    → Schema
unfolding Types.type_id_of Types.resolve Types.migrate_payload
schema_of type_id_attr qualname import_class model_dump model_validate bare_name fresh_id reg =
    record {
      type_id_of = Types.type_id_of type_id_attr qualname reg;
      resolve = Types.resolve import_class reg;
      migrate_payload = Types.migrate_payload reg;
      model_dump = model_dump;
      model_validate = model_validate;
      bare_name = bare_name;
      fresh_id = fresh_id;
    }

-- `resolve(data_type).model_validate(migrate_payload(data_type, raw))`
unfoldable pub read_model : Schema → String → Json → Result Model
read_model s data_type raw = elim (s.resolve data_type) [
  | none ↦ err unknown_type
  | some c ↦ s.model_validate c (s.migrate_payload data_type raw)
]

-- Every class is found under its own name, and every model, dumped, migrated and validated as its
-- class, is the model again.
pub record IsFaithful (s : Schema) : Type 0 where
  pub resolves : (c : Class) → s.resolve (s.type_id_of c) ≡ some c
  pub validates :
      (m : Model)
      → s.model_validate
          (class_of m)
          (s.migrate_payload (s.type_id_of (class_of m)) (s.model_dump m))
        ≡ ok m
