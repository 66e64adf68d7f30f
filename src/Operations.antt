-- ===== src/Operations.antt =====
-- reactifact/operations.py: the compiled operations, and the edges of the artifact graph.
-- `data_type`, which is the name of the class of the data, is not stored again.
use text.Mathlib.TextEquality.{eq_iff}
use reactifact.Prelude.{String, ◌≡◌, ◌↔◌, Bool, true, ◌&&◌, Option, arith, Eq, ◌==◌, string_eq}
use reactifact.Model.{Model}

pub record Relation : Type 0 where
  pub source_id : String
  pub relation : String
  pub target_id : String

-- `artifact_id` of a `create` is filled in when the patch is applied.
pub data Operation : Type 0 where
  create : Model → Option String → Option String → Operation
  update : String → Model → Operation
  delete : String → Operation
  link : String → String → String → Operation
  unlink : String → Option String → Option String → Operation

unfoldable pub relation_beq : Relation → Relation → Bool
relation_beq a b =
    (a.source_id == b.source_id) && ((a.relation == b.relation) && (a.target_id == b.target_id))

pub relation_beq_iff : (a b : Relation) → (relation_beq a b ≡ true) ↔ (a ≡ b)
unfolding relation_beq
relation_beq_iff a b = ground (
  arith,
  eq_iff a.source_id b.source_id,
  eq_iff a.relation b.relation,
  eq_iff a.target_id b.target_id,
)

instance abbrev pub relation_eq : Eq Relation
relation_eq = record { beq = relation_beq; beq_iff = relation_beq_iff }
