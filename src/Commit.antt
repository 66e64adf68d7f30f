-- ===== src/Commit.antt =====
-- reactifact/commit.py: the record of one applied patch. The timestamp is not modelled.
use reactifact.Prelude.{ℕ, String, Option, List, [], ◌∷◌, string_eq}
use reactifact.Prelude.Sets.{of_list}
use reactifact.Operations.{Operation}

pub record Read : Type 0 where
  pub artifact_id : String
  pub version : ℕ

pub data OpType : Type 0 where
  create update delete : OpType

pub record Write : Type 0 where
  pub artifact_id : String
  pub version : ℕ
  pub op_type : OpType

pub record Commit : Type 0 where
  pub id : String
  pub author : String
  pub message : String
  pub operations : List Operation
  pub parent_id : Option String
  pub context_version : Option ℕ
  pub reads : List Read
  pub writes : List Write

abbrev pub read_ids : List Read → List String
read_ids [] = []
read_ids (r ∷ rs) = r.artifact_id ∷ read_ids rs

-- `{r.artifact_id for r in commit.reads}`
unfoldable pub sources : Commit → List String
sources c = of_list (read_ids c.reads)
