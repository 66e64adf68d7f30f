-- ===== src/Context/Rebuilt.antt =====
-- What a rebuild of the two indices makes of a context in order.
use text.Mathlib.TextEquality.{eq_iff}
use reactifact.Prelude.{String, ◌≡◌, refl, ◌∙◌, ◌||◌, List, [], ◌∷◌, arith, string_eq}
use reactifact.Prelude.Dict.{Dict, lookup, insert-IsDistinct, IsDistinct}
use reactifact.Prelude.Sets.{contains}
use reactifact.Model.{Class, class_of, class_eq}
use reactifact.Artifact.{Artifact}
use reactifact.Operations.{relation_eq}
use reactifact.CommitLog.Replayed.{base_state}
use reactifact.Context.State.{Context, add_typed}
use reactifact.Context.History.{index_types, reindex_by_type, recompute_stale, rebuild_indices}
use reactifact.Context.TypeIndex.{get_typed, has_class, IsIndexed, contains-add_typed}
use reactifact.Context.Soundness.{IsSound}
use reactifact.Context.Staleness.{IsKeyed}

-- The loop files the artifacts one after the other.
index_types-IsDistinct :
    (d : Dict String Artifact) (bt : Dict Class (List String))
    → IsDistinct bt
    → IsDistinct (index_types d bt)
unfolding index_types add_typed
index_types-IsDistinct [] bt h = h
index_types-IsDistinct ((aid, a) ∷ d) bt h =
    index_types-IsDistinct d (add_typed (class_of a.data_) aid bt)
      (insert-IsDistinct (class_of a.data_) _ bt h)

contains-index_types :
    (c : Class) (k : String) (d : Dict String Artifact) (bt : Dict Class (List String))
    → IsDistinct d
    → contains k (get_typed c (index_types d bt))
      ≡ (has_class c (lookup k d) || contains k (get_typed c bt))
unfolding index_types lookup
contains-index_types c k [] bt h = refl
contains-index_types c k ((aid, a) ∷ d) bt h = ground (
  arith,
  contains-index_types c k d (add_typed (class_of a.data_) aid bt) h.1,
  contains-add_typed (class_of a.data_) c aid k bt,
  eq_iff aid k,
  h.0,
)

-- The index that a rebuild makes is exact, whatever was there.
pub reindex_by_type-IsIndexed :
    (ctx : Context) → IsDistinct ctx.artifacts → IsIndexed (reindex_by_type ctx)
unfolding reindex_by_type
reindex_by_type-IsIndexed ctx h = record {
  artifacts_distinct = h;
  types_distinct = index_types-IsDistinct ctx.artifacts [] tt;
  typed =
      λ c k. contains-index_types c k ctx.artifacts [] h ∙ unfold lookup contains in ground arith;
}

-- The rebuild of both indices puts a store with distinct ids in order.
pub rebuild_indices-IsSound :
    (ctx : Context)
    → IsDistinct ctx.artifacts
    → IsKeyed ctx
    → IsDistinct (base_state ctx.log)
    → IsSound (rebuild_indices ctx)
unfolding rebuild_indices recompute_stale
rebuild_indices-IsSound ctx distinct h based = record {
  indexed = reindex_by_type-IsIndexed (recompute_stale ctx) distinct;
  keyed = unfold reindex_by_type in record { keyed = h.keyed; log_valid = h.log_valid };
  based = unfold reindex_by_type in based;
}
