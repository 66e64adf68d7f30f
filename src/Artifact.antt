-- ===== src/Artifact.antt =====
-- `Artifact` of reactifact/artifacts.py: a model with its earlier versions. `data_class` is the
-- class whose type id `data_type` holds: that of the first data, since `update` leaves it alone. The timestamps and the
-- memoised serialisation are not modelled.
use reactifact.Prelude.{
  ℕ, ◌+◌, ◌-◌, String, Option, List, [], ◌∷◌, ◌++◌, ltb, length, drop, if◌then◌else◌,
}
use reactifact.Model.{Model, Class, class_of}

pub record Artifact : Type 0 where
  pub id : String
  pub data_ : Model
  pub data_class : Class
  pub created_by_commit : Option String
  pub history : List Model
  pub version : ℕ

-- `Artifact(data, id=…, created_by_commit=…)`
unfoldable pub new : Model → String → Option String → Artifact
new d i c = record {
  id = i;
  data_ = d;
  data_class = class_of d;
  created_by_commit = c;
  history = [];
  version = 0;
}

-- `Artifact.update`
unfoldable pub revise : Artifact → Model → Artifact
revise a d = record a { history = a.history ++ a.data_ ∷ []; data_ = d; version = a.version + 1 }

-- `Artifact.trim_history`; a negative `keep`, which it refuses, is no natural number.
unfoldable pub trim_history : ℕ → Artifact → Artifact
trim_history keep a =
    if ltb keep (length a.history)
    then record a { history = drop (length a.history - keep) a.history }
    else a

-- `Artifact.get_all_versions`
unfoldable pub get_all_versions : Artifact → List Model
get_all_versions a = a.history ++ a.data_ ∷ []
