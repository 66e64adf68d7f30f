-- ===== src/Persistence/Trees.antt =====
-- The working tree of a save, read back and put over the context that the commits give.
use reactifact.Prelude.{
  ℕ, ◌+◌, String, ◌≡◌, refl, ◌∙◌, sym, ap, Bool, true, false, not, ◌&&◌, ◌||◌, Option, none, some,
  List, [], ◌∷◌, arith, keep_if, leb, length, or_else, is_some, if◌then◌else◌, string_eq, ◌==◌,
  ==_refl, ==_iff, Bool-cases, inl, inr, insert_sorted, sort_by,
}
use reactifact.Prelude.Dict.{Dict, lookup, insert, lookup-insert, IsDistinct}
use reactifact.Prelude.Sets.{contains, contains-add}
use reactifact.Result.{ok}
use reactifact.Model.{model_eq}
use reactifact.Artifact.{Artifact}
use reactifact.Operations.{Relation, relation_eq}
use reactifact.RelationGraph.{Graph}
use reactifact.CommitLog.{State, replay_state, replay_relations}
use reactifact.Context.{Context}
use reactifact.Json.{text, as_text, read_items, items_of}
use reactifact.Json.Lists.{read_fields-fields_of}
use reactifact.Codec.{Schema, IsFaithful, artifact_to_dict, artifact_from_dict, set_edges}
use reactifact.Codec.Roundtrip.{AllStorable, artifacts_read_back, graph_reads_back}
use reactifact.Persistence.Save.{is_dirty, dirty, new_edges, ids_of, working_tree}
use reactifact.Persistence.Load.{Tree, put_all, ranks, rank_in, restore_order, read_tree}

dirty-AllStorable :
    (st : State) (arts : Dict String Artifact) → AllStorable arts → AllStorable (dirty st arts)
unfolding dirty
dirty-AllStorable st [] h = tt
dirty-AllStorable st ((aid, a) ∷ arts) h = elim (Bool-cases (is_dirty st aid a)) [
  | inl e ↦ rw e (h.0, dirty-AllStorable st arts h.1)
  | inr e ↦ rw e (dirty-AllStorable st arts h.1)
]

lookup-dirty-none :
    (st : State) (arts : Dict String Artifact) (k : String)
    → lookup k arts ≡ none
    → lookup k (dirty st arts) ≡ none
unfolding dirty lookup
lookup-dirty-none st [] k h = refl
lookup-dirty-none st ((j, a) ∷ arts) k h = ground (arith, lookup-dirty-none st arts k, h)

dirty-IsDistinct :
    (st : State) (arts : Dict String Artifact) → IsDistinct arts → IsDistinct (dirty st arts)
unfolding dirty
dirty-IsDistinct st [] h = tt
dirty-IsDistinct st ((aid, a) ∷ arts) h = elim (Bool-cases (is_dirty st aid a)) [
  | inl e ↦ rw e (lookup-dirty-none st arts aid h.0, dirty-IsDistinct st arts h.1)
  | inr e ↦ rw e (dirty-IsDistinct st arts h.1)
]

lookup-dirty :
    (st : State) (arts : Dict String Artifact) (k : String) (a : Artifact)
    → lookup k arts ≡ some a
    → is_dirty st k a ≡ true
    → lookup k (dirty st arts) ≡ some a
unfolding dirty lookup
lookup-dirty st [] k a e d = ground (arith, e)
lookup-dirty st ((j, b) ∷ arts) k a e d =
    ground (arith, lookup-dirty st arts k a, string_eq.beq_iff j k, e, d)

lookup-put_all-none :
    (tree arts : Dict String Artifact) (k : String)
    → lookup k tree ≡ none
    → lookup k (put_all tree arts) ≡ lookup k arts
unfolding put_all lookup
lookup-put_all-none [] arts k h = refl
lookup-put_all-none ((j, a) ∷ tree) arts k h =
    ground (arith, lookup-put_all-none tree (insert j a arts) k, lookup-insert k j a arts, h)

lookup-put_all :
    (tree arts : Dict String Artifact) (k : String) (a : Artifact)
    → IsDistinct tree
    → lookup k tree ≡ some a
    → lookup k (put_all tree arts) ≡ some a
unfolding put_all lookup
lookup-put_all [] arts k a h e = ground (arith, e)
lookup-put_all ((j, b) ∷ tree) arts k a h e = ground (
  arith,
  lookup-put_all tree (insert j b arts) k a h.1,
  lookup-put_all-none tree (insert j b arts) k,
  lookup-insert k j b arts,
  string_eq.beq_iff j k,
  h.0,
  e,
)

-- Sorting by a rank of the key finds what it found before.
lookup-insert_sorted :
    (rank : Dict String ℕ) (j k : String) (a : Artifact) (arts : Dict String Artifact)
    → lookup k (insert_sorted (rank_in rank) (j, a) arts)
      ≡ (if j == k then some a else lookup k arts)
unfolding insert_sorted lookup rank_in
lookup-insert_sorted rank j k a [] = refl
lookup-insert_sorted rank j k a ((i, b) ∷ arts) =
    ground
      (arith, lookup-insert_sorted rank j k a arts, string_eq.beq_iff i k, string_eq.beq_iff j k)

lookup-sort_by :
    (rank : Dict String ℕ) (k : String) (arts : Dict String Artifact)
    → lookup k (sort_by (rank_in rank) arts) ≡ lookup k arts
unfolding sort_by lookup
lookup-sort_by rank k [] = refl
lookup-sort_by rank k ((j, a) ∷ arts) =
    lookup-insert_sorted rank j k a (sort_by (rank_in rank) arts) ∙ rw (lookup-sort_by rank k arts)

lookup-restore_order :
    (order : List String) (k : String) (arts : Dict String Artifact)
    → lookup k (restore_order order arts) ≡ lookup k arts
unfolding restore_order
lookup-restore_order [] k arts = refl
lookup-restore_order (aid ∷ order) k arts = lookup-sort_by (ranks 0 (aid ∷ order) []) k arts

-- What the working tree holds is found under its id again.
pub lookup-restored :
    (st : State) (arts kept : Dict String Artifact) (order : List String) (k : String)
    (a : Artifact)
    → IsDistinct arts
    → lookup k arts ≡ some a
    → is_dirty st k a ≡ true
    → lookup k (restore_order order (put_all (dirty st arts) kept)) ≡ some a
lookup-restored st arts kept order k a h e d =
    lookup-restore_order order k (put_all (dirty st arts) kept)
    ∙ lookup-put_all (dirty st arts) kept k a (dirty-IsDistinct st arts h)
        (lookup-dirty st arts k a e d)

contains-set_edges :
    (rs g : Graph) (r : Relation) → contains r (set_edges rs g) ≡ (contains r rs || contains r g)
unfolding set_edges contains
contains-set_edges [] g r = refl
contains-set_edges (x ∷ rs) g r =
    ground (arith, contains-set_edges rs (reactifact.Prelude.Sets.add x g) r, contains-add r x g)

contains-new_edges :
    (committed g : Graph) (r : Relation)
    → contains r (new_edges committed g) ≡ (contains r g && not (contains r committed))
unfolding contains
contains-new_edges committed [] r = refl
contains-new_edges committed (x ∷ g) r =
    ground (arith, contains-new_edges committed g r, ==_iff x r)

-- The edges after a load: those of the commits and those of the saved context.
pub contains-restored :
    (committed g : Graph) (r : Relation)
    → contains r (set_edges (set_edges (new_edges committed g) []) committed)
      ≡ (contains r committed || contains r g)
unfolding contains
contains-restored committed g r = ground (
  arith,
  contains-set_edges (set_edges (new_edges committed g) []) committed r,
  contains-set_edges (new_edges committed g) [] r,
  contains-new_edges committed g r,
)

texts_read_back : (xs : List String) → read_items as_text (items_of text xs) ≡ ok xs
unfolding read_items items_of
texts_read_back [] = refl
texts_read_back (x ∷ xs) = rw (texts_read_back xs)

abbrev pub tree_of : Context → Tree
tree_of ctx = record {
  artifacts = dirty (replay_state ctx.log.version ctx.log) ctx.artifacts;
  relations = new_edges (replay_relations ctx.log.version ctx.log) ctx.relations;
  order = ids_of ctx.artifacts;
}

pub tree_reads_back :
    (s : Schema) (f : IsFaithful s) (ctx : Context)
    → AllStorable ctx.artifacts
    → read_tree s (working_tree s ctx) ≡ ok (tree_of ctx)
unfolding read_tree working_tree
tree_reads_back s f ctx h =
    let st = replay_state ctx.log.version ctx.log in
    rw (
      read_fields-fields_of (artifact_to_dict s) (artifact_from_dict s) (dirty st ctx.artifacts)
          (artifacts_read_back s f (dirty st ctx.artifacts) (dirty-AllStorable st ctx.artifacts h)),
      graph_reads_back (new_edges (replay_relations ctx.log.version ctx.log) ctx.relations),
      texts_read_back (ids_of ctx.artifacts),
    )
