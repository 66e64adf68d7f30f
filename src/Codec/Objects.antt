-- ===== src/Codec/Objects.antt =====
-- Each object is read back as it was written.
use reactifact.Prelude.{◌≡◌, refl, false, none, some, List, [], ◌∷◌, ◌==◌, string_eq, ◌∙◌, ap, sym}
use reactifact.Result.{ok, ◌>>=◌}
use reactifact.Model.{Model, Class, class_of}
use reactifact.Artifact.{Artifact, new}
use reactifact.Operations.{Operation, create, update, delete, link, unlink, Relation}
use reactifact.Commit.{Read, Write, OpType, Commit}
use reactifact.Context.{
  chosen_id, Event, EventType, artifact_created, artifact_updated, artifact_deleted, artifact_stale,
}
use reactifact.Json.{as_optional_text, optional_text, items_of, read_items}
use reactifact.Json.Lists.{
  optional_text_reads_back, optional_num_reads_back, ReadsBack, ReadsBack-all, read_items-items_of,
}
use reactifact.Codec.Schemas.{Schema, read_model, IsFaithful}
use reactifact.Codec.Operations.{
  relation_to_dict, relation_from_dict, operation_to_dict, operation_from_dict,
}
use reactifact.Codec.Commits.{
  read_to_dict, read_from_dict, write_to_dict, write_from_dict, commit_to_dict, commit_from_dict,
  op_type_text, op_type_of,
}
use reactifact.Codec.Artifacts.{
  artifact_to_dict, artifact_from_dict, event_to_dict, event_from_dict, event_type_value,
  event_type_of,
}

pub relation_reads_back : (r : Relation) → relation_from_dict (relation_to_dict r) ≡ ok r
unfolding relation_from_dict relation_to_dict
relation_reads_back r = refl

pub read_reads_back : (r : Read) → read_from_dict (read_to_dict r) ≡ ok r
unfolding read_from_dict read_to_dict
read_reads_back r = refl

op_type_reads_back : (t : OpType) → op_type_of (op_type_text t) ≡ ok t
unfolding op_type_of
op_type_reads_back OpType.create = refl
op_type_reads_back OpType.update = refl
op_type_reads_back OpType.delete = refl

pub write_reads_back : (w : Write) → write_from_dict (write_to_dict w) ≡ ok w
unfolding write_from_dict write_to_dict
write_reads_back w =
    ap (λ t. t >>= λ x. ok (record w { op_type = x })) (op_type_reads_back w.op_type)

event_type_reads_back : (t : EventType) → event_type_of (event_type_value t) ≡ ok t
unfolding event_type_of
event_type_reads_back artifact_created = refl
event_type_reads_back artifact_updated = refl
event_type_reads_back artifact_deleted = refl
event_type_reads_back artifact_stale = refl

-- All the models have the class.
abbrev pub AllOf : Class → List Model → Type 0
AllOf c [] = Unit
AllOf c (m ∷ ms) = (class_of m ≡ c) × AllOf c ms

-- The artifact has an id, and its class and those of its earlier versions are the one that it was
-- created with.
abbrev pub IsStorableArtifact : Artifact → Type 0
IsStorableArtifact a =
    ((a.id == "") ≡ false) × (class_of a.data_ ≡ a.data_class) × AllOf a.data_class a.history

module _ (s : Schema) (h : IsFaithful s) where
  pub model_reads_back :
      (m : Model) → read_model s (s.type_id_of (class_of m)) (s.model_dump m) ≡ ok m
  unfolding read_model
  model_reads_back m = rw (h.resolves (class_of m), read_model) (h.validates m)

  pub operation_reads_back :
      (op : Operation) → operation_from_dict s (operation_to_dict s op) ≡ ok op
  unfolding operation_from_dict operation_to_dict
  operation_reads_back (create d aid i) =
      ap
        (λ m. m >>= λ x. as_optional_text (optional_text i) >>= λ y.
          as_optional_text (optional_text aid) >>= λ z. ok (create x z y))
        (model_reads_back d)
      ∙ rw (optional_text_reads_back i, optional_text_reads_back aid)
  operation_reads_back (update aid d) = ap (λ m. m >>= λ x. ok (update aid x)) (model_reads_back d)
  operation_reads_back (delete aid) = refl
  operation_reads_back (link a r t) = refl
  operation_reads_back (unlink a r t) = rw (optional_text_reads_back r, optional_text_reads_back t)

  pub commit_reads_back : (c : Commit) → commit_from_dict s (commit_to_dict s c) ≡ ok c
  unfolding commit_from_dict commit_to_dict
  commit_reads_back c = rw (
    read_items-items_of (operation_to_dict s) (operation_from_dict s) c.operations (
        ReadsBack-all (operation_to_dict s) (operation_from_dict s) operation_reads_back
          c.operations),
    optional_text_reads_back c.parent_id,
    optional_num_reads_back c.context_version,
    read_items-items_of read_to_dict read_from_dict c.reads
        (ReadsBack-all read_to_dict read_from_dict read_reads_back c.reads),
    read_items-items_of write_to_dict write_from_dict c.writes
        (ReadsBack-all write_to_dict write_from_dict write_reads_back c.writes),
  )

  history-ReadsBack :
      (c : Class) (ms : List Model)
      → AllOf c ms
      → ReadsBack s.model_dump (read_model s (s.type_id_of c)) ms
  history-ReadsBack c [] all = tt
  history-ReadsBack c (m ∷ ms) all = (
    ap (λ k. read_model s (s.type_id_of k) (s.model_dump m)) (sym all.0) ∙ model_reads_back m,
    history-ReadsBack c ms all.1,
  )

  pub artifact_reads_back :
      (a : Artifact) → IsStorableArtifact a → artifact_from_dict s (artifact_to_dict s a) ≡ ok a
  unfolding artifact_from_dict artifact_to_dict new chosen_id
  artifact_reads_back a u =
      let own : read_model s (s.type_id_of a.data_class) (s.model_dump a.data_) ≡ ok a.data_ =
        (history-ReadsBack a.data_class (a.data_ ∷ []) (u.1, tt)).0 in
      ap
        (λ m. m >>= λ x. as_optional_text (optional_text a.created_by_commit) >>= λ c.
          read_items (read_model s (s.type_id_of a.data_class)) (items_of s.model_dump a.history)
          >>= λ hs.
              ok (record (new x (chosen_id (s.fresh_id (artifact_to_dict s a)) (some a.id)) c) {
                history = hs;
                version = a.version;
              }))
        own
      ∙ rw
          (
            u.0,
            optional_text_reads_back a.created_by_commit,
            read_items-items_of s.model_dump (read_model s (s.type_id_of a.data_class)) a.history
                (history-ReadsBack a.data_class a.history u.2),
          )
          (ap (λ c. ok (record a { data_class = c })) u.1)

  -- A loaded event has a new identity.
  pub event_reads_back :
      (e : Event) → event_from_dict s (event_to_dict s e) ≡ ok (record e { ident = 0 })
  unfolding event_from_dict event_to_dict
  event_reads_back e = rw (event_type_reads_back e.type_) (
      ap
        (λ o. ok (record e {
          ident = 0;
          artifact_type = elim o [ none ↦ s.bare_name (s.type_id_of e.artifact_type) | some c ↦ c ];
        }))
        (h.resolves e.artifact_type))
