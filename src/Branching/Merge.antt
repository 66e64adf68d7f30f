-- ===== src/Branching/Merge.antt =====
-- What a merge makes of each artifact, and that it loses no change of either side.
use mathlib.Core.Option
use reactifact.Prelude.{
  String, ◌≡◌, refl, true, false, Bool, ◌||◌, none, some, List, [], ◌∷◌, arith, ◌⊎◌, if◌then◌else◌,
  string_eq, inl, inr, Bool-cases, opt_beq, ◌∙◌, ap, sym, ==_refl,
}
use reactifact.Prelude.Dict.{lookup, keys, contains-keys}
use reactifact.Prelude.Sets.{contains, union, contains-union}
use reactifact.Result.{Result, ok, err, merge_conflict, attribute_error}
use reactifact.Artifact.{Artifact}
use reactifact.Context.{Context}
use reactifact.Branching.{
  Branch, Dumps, lacks_status, plan_raises, keep, Plan, intent, is_dispatched, is_action,
  plan_merge, apply_plan, merge_base, merge_contexts,
}
use reactifact.Runtime.Replay.{data_at}
use reactifact.Branching.Verdicts.{
  verdict_at, is_conflict, decided, intent_at, verdict_lem, diverged, conflict_lem, dispatched_lem,
  no_conflict, conflict_if, intent_at-data,
}
use reactifact.Branching.Plans.{plan_conflicts, plan_data, untouched_keep}

-- The outcome as the raise in the loop and the list of conflicts decide it.
abbrev outcome : Bool → List String → Branch → Result Branch
outcome raises cs b =
    if raises
    then err attribute_error
    else elim cs [ [] ↦ ok b | c ∷ cs' ↦ err (merge_conflict (c ∷ cs')) ]

chosen :
    (raises : Bool) (cs : List String) (b merged : Branch)
    → outcome raises cs b ≡ ok merged
    → (raises ≡ false) × (cs ≡ []) × (merged ≡ b)
chosen true cs b merged e = cc e
chosen false [] b merged e = ground (arith, e)
chosen false (c ∷ cs) b merged e = cc e

refused :
    (raises : Bool) (cs : List String) (b : Branch) (ids : List String)
    → outcome raises cs b ≡ err (merge_conflict ids)
    → cs ≡ ids
refused true cs b ids e = cc e
refused false [] b ids e = cc e
refused false (c ∷ cs) b ids e = ground (arith, e)

-- The loop raises only at an id of the merge whose data lack a status.
plan_raises-none :
    (dumps : Dumps) (ids : List String) (target other : Context)
    → ((k : String)
        → lacks_status dumps (lookup k target.artifacts) (lookup k other.artifacts) ≡ false)
    → plan_raises dumps ids target other ≡ false
unfolding plan_raises
plan_raises-none dumps [] target other h = refl
plan_raises-none dumps (aid ∷ ids) target other h =
    ground (arith, h aid, plan_raises-none dumps ids target other h)

plan_raises-at :
    (dumps : Dumps) (ids : List String) (target other : Context) (k : String)
    → plan_raises dumps ids target other ≡ false
    → contains k ids ≡ true
    → lacks_status dumps (lookup k target.artifacts) (lookup k other.artifacts) ≡ false
unfolding plan_raises contains
plan_raises-at dumps [] target other k h inside = cc inside
plan_raises-at dumps (aid ∷ ids) target other k h inside = ground (
  arith,
  plan_raises-at dumps ids target other k,
  string_eq.beq_iff aid k,
  ap (λ x. lacks_status dumps (lookup x target.artifacts) (lookup x other.artifacts)),
)

-- An id that is none of the merge's is in no context.
absent :
    (base target other : Context) (k : String)
    → contains k
        (union (union (keys base.artifacts) (keys target.artifacts)) (keys other.artifacts))
      ≡ false
    → (lookup k base.artifacts ≡ none)
      × (lookup k target.artifacts ≡ none)
      × (lookup k other.artifacts ≡ none)
absent base target other k out = ground (
  arith,
  contains-union k (union (keys base.artifacts) (keys target.artifacts)) (keys other.artifacts),
  contains-union k (keys base.artifacts) (keys target.artifacts),
  contains-keys k base.artifacts,
  contains-keys k target.artifacts,
  contains-keys k other.artifacts,
)

returned :
    (raises : Bool) (cs : List String) (b : Branch)
    → raises ≡ false
    → ((k : String) → contains k cs ≡ false)
    → (merged : Branch) × (outcome raises cs b ≡ ok merged)
unfolding contains
returned true cs b quiet clear = cc quiet
returned false [] b quiet clear = (b, refl)
returned false (c ∷ cs) b quiet clear = absurd (ground (arith, clear c, ==_refl c))

-- A merge of two branches, whose base and ids are these.
module _ (dumps : Dumps) (sorted : List String → List String) (cid message : String)
    (target other : Branch) where
  abbrev pub base_of : Context
  base_of = merge_base other.base target.base

  abbrev pub merge_ids : List String
  merge_ids = sorted (
      union (union (keys base_of.artifacts) (keys target.context.artifacts))
        (keys other.context.artifacts))

  abbrev pub raises_of : Bool
  raises_of = plan_raises dumps merge_ids target.context other.context

  abbrev pub plan_of : Plan
  plan_of = plan_merge dumps merge_ids base_of target.context other.context

  pub merged_plan :
      (merged : Branch)
      → merge_contexts dumps sorted cid message target other ≡ ok merged
      → (raises_of ≡ false)
        × (plan_of.conflicts ≡ [])
        × (merged.context ≡ apply_plan cid message plan_of target.context other.context)
  unfolding merge_contexts
  merged_plan merged returned =
      let (quiet, none_left, same) =
        chosen raises_of plan_of.conflicts
          (record target { context = apply_plan cid message plan_of target.context other.context })
          merged returned in
      (quiet, none_left, ap (λ b. b.context) same)

  refused_plan :
      (ids : List String)
      → merge_contexts dumps sorted cid message target other ≡ err (merge_conflict ids)
      → plan_of.conflicts ≡ ids
  unfolding merge_contexts
  refused_plan ids returned =
      refused raises_of plan_of.conflicts
        (record target { context = apply_plan cid message plan_of target.context other.context })
        ids returned

  covers :
      ((k : String) (ids : List String) → contains k (sorted ids) ≡ contains k ids)
      → (k : String)
      → (contains k merge_ids ≡ true)
        ⊎ (verdict_at dumps base_of target.context other.context k ≡ keep)
  covers kept k = elim (Bool-cases (contains k merge_ids)) [
    | inl inside ↦ inl inside
    | inr out ↦
        let (b, t, o) = absent base_of target.context other.context k (sym (kept k _) ∙ out) in
        inr (untouched_keep dumps base_of target.context other.context k b t o)
  ]

  -- A merge that returns leaves under every id what the verdict on it says.
  pub merged_data :
      ((k : String) (ids : List String) → contains k (sorted ids) ≡ contains k ids)
      → (merged : Branch) → merge_contexts dumps sorted cid message target other ≡ ok merged
      → (k : String)
      → (is_conflict (verdict_at dumps base_of target.context other.context k) ≡ false)
        × (data_at k merged.context.artifacts
            ≡ decided
                (verdict_at dumps base_of target.context other.context k)
                (data_at k target.context.artifacts))
  merged_data kept merged returned k =
      let (quiet, none_left, same) = merged_plan merged returned in
      let covered = covers kept k in
      let clear : is_conflict (verdict_at dumps base_of target.context other.context k) ≡ false =
        no_conflict (contains k merge_ids) (verdict_at dumps base_of target.context other.context k)
          covered
          (sym (plan_conflicts dumps base_of target.context other.context k merge_ids)
            ∙ ap (contains k) none_left
            ∙ unfold contains in refl) in
      (
        clear,
        ap (λ c. data_at k c.artifacts) same
            ∙ plan_data dumps base_of target.context other.context k cid message merge_ids covered
                clear,
      )

  -- A merge that returns is a three-way merge under every id: where the target still has the
  -- signature of the base, the other side's signature is taken, else the target's stays.
  pub merged_intent :
      ((k : String) (ids : List String) → contains k (sorted ids) ≡ contains k ids)
      → (merged : Branch) → merge_contexts dumps sorted cid message target other ≡ ok merged
      → (k : String)
      → intent_at dumps k merged.context ≡ (
          if opt_beq (intent_at dumps k target.context) (intent_at dumps k base_of)
          then intent_at dumps k other.context
          else intent_at dumps k target.context)
  unfolding verdict_at
  merged_intent kept merged returned k =
      let (clear, held) = merged_data kept merged returned k in
      intent_at-data dumps k merged.context
      ∙ ap (Option.map (intent dumps)) held
      ∙ verdict_lem dumps (lookup k base_of.artifacts) (lookup k target.context.artifacts)
          (lookup k other.context.artifacts) clear

  -- A merge that is refused names exactly the ids whose three versions have pairwise different
  -- signatures.
  pub refused_conflicts :
      ((k : String) (ids : List String) → contains k (sorted ids) ≡ contains k ids)
      → (ids : List String)
      → merge_contexts dumps sorted cid message target other ≡ err (merge_conflict ids)
      → (k : String)
      → contains k ids
        ≡ diverged dumps
            (lookup k base_of.artifacts)
            (lookup k target.context.artifacts)
            (lookup k other.context.artifacts)
  unfolding verdict_at
  refused_conflicts kept ids returned k =
      ap (contains k) (sym (refused_plan ids returned))
      ∙ plan_conflicts dumps base_of target.context other.context k merge_ids
      ∙ conflict_if (contains k merge_ids) (verdict_at dumps base_of target.context other.context k)
          (covers kept k)
      ∙ conflict_lem dumps (lookup k base_of.artifacts) (lookup k target.context.artifacts)
          (lookup k other.context.artifacts)

  -- An action that both sides hold with the same signature, and that one of them has dispatched, is
  -- dispatched in the merge.
  pub merged_dispatched :
      ((k : String) (ids : List String) → contains k (sorted ids) ≡ contains k ids)
      → (merged : Branch) → merge_contexts dumps sorted cid message target other ≡ ok merged
      → (k : String) (t o : Artifact) → lookup k target.context.artifacts ≡ some t
      → lookup k other.context.artifacts ≡ some o
      → is_action t.data_ ≡ true
      → is_action o.data_ ≡ true
      → intent dumps t.data_ ≡ intent dumps o.data_
      → (is_dispatched t.data_ || is_dispatched o.data_) ≡ true
      → Option.map is_dispatched (data_at k merged.context.artifacts) ≡ some true
  unfolding verdict_at
  merged_dispatched kept merged returned k t o tx ox acts_t acts_o same either =
      let (clear, held) = merged_data kept merged returned k in
      ap (Option.map is_dispatched) held
      ∙ rw (tx, ox, verdict_at)
          (dispatched_lem dumps t o (lookup k base_of.artifacts) acts_t acts_o same either)

  -- A merge in which no id has three versions of pairwise different signatures returns, if the
  -- other side holds an action wherever the target holds an undispatched one of that signature.
  pub merge_contexts-returns :
      ((k : String) (ids : List String) → contains k (sorted ids) ≡ contains k ids)
      → ((k : String)
          → diverged dumps
              (lookup k base_of.artifacts)
              (lookup k target.context.artifacts)
              (lookup k other.context.artifacts)
            ≡ false)
      → ((k : String)
          → lacks_status dumps
              (lookup k target.context.artifacts)
              (lookup k other.context.artifacts)
            ≡ false)
      → (merged : Branch) × (merge_contexts dumps sorted cid message target other ≡ ok merged)
  unfolding merge_contexts verdict_at
  merge_contexts-returns kept agreed actions =
      returned raises_of plan_of.conflicts
        (record target { context = apply_plan cid message plan_of target.context other.context })
        (plan_raises-none dumps merge_ids target.context other.context actions)
        (λ k.
          plan_conflicts dumps base_of target.context other.context k merge_ids
          ∙ conflict_if (contains k merge_ids)
              (verdict_at dumps base_of target.context other.context k) (covers kept k)
          ∙ conflict_lem dumps (lookup k base_of.artifacts) (lookup k target.context.artifacts)
              (lookup k other.context.artifacts)
          ∙ agreed k)
