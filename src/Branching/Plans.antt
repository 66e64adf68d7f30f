-- ===== src/Branching/Plans.antt =====
-- What the plan of a merge does to the artifacts of the target.
use reactifact.Prelude.{
  String, ◌≡◌, refl, Bool, true, false, ◌&&◌, Option, none, some, List, [], ◌∷◌, arith, ◌⊎◌, ◌==◌,
  if◌then◌else◌, string_eq, inl, inr, Option-cases, ◌∙◌, ap,
}
use reactifact.Prelude.Dict.{Dict, lookup, remove, lookup-insert, lookup-remove}
use reactifact.Prelude.Sets.{contains}
use reactifact.Model.{Model, model_eq}
use reactifact.Artifact.{Artifact, new, revise}
use reactifact.Context.{Context, log_commit, recompute_stale, reindex_by_type}
use reactifact.Branching.{
  Dumps, Verdict, keep, conflict, drop, adopt, Plan, verdict, converge, data_sig, plan_one,
  plan_merge, remove_all, store_one, store_all, apply_plan,
}
use reactifact.Runtime.Replay.{data_at}
use reactifact.Branching.Verdicts.{verdict_at, is_drop, is_conflict, decided, adopted, decided_lem}

pub data_at-store_one :
    (k aid : String) (d : Model) (arts : Dict String Artifact)
    → data_at k (store_one aid d arts) ≡ (if aid == k then some d else data_at k arts)
unfolding store_one new revise
data_at-store_one k aid d arts = elim (Option-cases (lookup aid arts)) [
  | inl e ↦ rw (e, store_one) (ground (arith, lookup-insert k aid (new d aid none) arts))
  | inr (a, e) ↦ rw (e, store_one) (ground (arith, lookup-insert k aid (revise a d) arts))
]

-- What one step of the plan does to the id `k`, whatever the verdicts `v` on the step's id and `w`
-- on `k`.
pub data_at-remove :
    (k aid : String) (arts : Dict String Artifact)
    → data_at k (remove aid arts) ≡ (if aid == k then none else data_at k arts)
data_at-remove k aid arts = ground (arith, lookup-remove k aid arts)

module _ (k aid : String) (w : Verdict) (p : Plan) (inside : Bool) where
  pub step_conflicts :
      (v : Verdict) (t : Option Artifact)
      → (aid ≡ k → v ≡ w)
      → contains k p.conflicts ≡ (inside && is_conflict w)
      → contains k (plan_one v aid t p).conflicts
        ≡ ((if aid == k then true else inside) && is_conflict w)
  unfolding plan_one contains
  step_conflicts keep t same ih = ground (arith, string_eq.beq_iff aid k)
  step_conflicts conflict t same ih = ground (arith, string_eq.beq_iff aid k)
  step_conflicts drop t same ih = ground (arith, string_eq.beq_iff aid k)
  step_conflicts (adopt d) none same ih = ground (arith, string_eq.beq_iff aid k)
  step_conflicts (adopt d) (some a) same ih = ground (arith, string_eq.beq_iff aid k)

  pub step_stored :
      (v : Verdict) (t : Option Artifact) (arts : Dict String Artifact)
      → (aid ≡ k → v ≡ w)
      → ((arts : Dict String Artifact)
          → data_at k (store_all p.pending arts)
            ≡ (if inside then adopted w (data_at k arts) else data_at k arts))
      → data_at k (store_all (plan_one v aid t p).pending arts) ≡ (
          if (if aid == k then true else inside)
          then adopted w (data_at k arts)
          else data_at k arts)
  unfolding plan_one store_all
  step_stored keep t arts same ih = ground (arith, string_eq.beq_iff aid k, ih arts)
  step_stored conflict t arts same ih = ground (arith, string_eq.beq_iff aid k, ih arts)
  step_stored drop t arts same ih = ground (arith, string_eq.beq_iff aid k, ih arts)
  step_stored (adopt d) none arts same ih =
      ground
        (arith, string_eq.beq_iff aid k, ih (store_one aid d arts), data_at-store_one k aid d arts)
  step_stored (adopt d) (some a) arts same ih =
      ground
        (arith, string_eq.beq_iff aid k, ih (store_one aid d arts), data_at-store_one k aid d arts)

  pub step_removed :
      (v : Verdict) (t : Option Artifact) (arts : Dict String Artifact)
      → (aid ≡ k → v ≡ w)
      → ((arts : Dict String Artifact)
          → data_at k (remove_all p.operations arts)
            ≡ (if inside && is_drop w then none else data_at k arts))
      → data_at k (remove_all (plan_one v aid t p).operations arts)
        ≡ (if (if aid == k then true else inside) && is_drop w then none else data_at k arts)
  unfolding plan_one remove_all
  step_removed keep t arts same ih = ground (arith, string_eq.beq_iff aid k, ih arts)
  step_removed conflict t arts same ih = ground (arith, string_eq.beq_iff aid k, ih arts)
  step_removed drop t arts same ih =
      ground (arith, string_eq.beq_iff aid k, ih (remove aid arts), data_at-remove k aid arts)
  step_removed (adopt d) none arts same ih = ground (arith, string_eq.beq_iff aid k, ih arts)
  step_removed (adopt d) (some a) arts same ih = ground (arith, string_eq.beq_iff aid k, ih arts)

module _ (dumps : Dumps) (base target other : Context) (k : String) where
  pub verdict_at-same :
      (aid : String)
      → aid ≡ k
      → verdict_at dumps base target other aid ≡ verdict_at dumps base target other k
  verdict_at-same aid same = ap (verdict_at dumps base target other) same

  pub plan_conflicts :
      (ids : List String)
      → contains k (plan_merge dumps ids base target other).conflicts
        ≡ (contains k ids && is_conflict (verdict_at dumps base target other k))
  unfolding plan_merge contains lookup verdict_at
  plan_conflicts [] = refl
  plan_conflicts (aid ∷ ids) =
      step_conflicts k aid (verdict_at dumps base target other k)
        (plan_merge dumps ids base target other) (contains k ids)
        (verdict_at dumps base target other aid) (lookup aid target.artifacts) (verdict_at-same aid)
        (plan_conflicts ids)

  pub plan_stored :
      (ids : List String) (arts : Dict String Artifact)
      → data_at k (store_all (plan_merge dumps ids base target other).pending arts) ≡ (
          if contains k ids
          then adopted (verdict_at dumps base target other k) (data_at k arts)
          else data_at k arts)
  unfolding plan_merge contains lookup store_all verdict_at
  plan_stored [] arts = unfold store_all in refl
  plan_stored (aid ∷ ids) arts =
      step_stored k aid (verdict_at dumps base target other k)
        (plan_merge dumps ids base target other) (contains k ids)
        (verdict_at dumps base target other aid) (lookup aid target.artifacts) arts
        (verdict_at-same aid) (plan_stored ids)

  pub plan_removed :
      (ids : List String) (arts : Dict String Artifact)
      → data_at k (remove_all (plan_merge dumps ids base target other).operations arts) ≡ (
          if contains k ids && is_drop (verdict_at dumps base target other k)
          then none
          else data_at k arts)
  unfolding plan_merge contains lookup remove_all verdict_at
  plan_removed [] arts = unfold remove_all in refl
  plan_removed (aid ∷ ids) arts =
      step_removed k aid (verdict_at dumps base target other k)
        (plan_merge dumps ids base target other) (contains k ids)
        (verdict_at dumps base target other aid) (lookup aid target.artifacts) arts
        (verdict_at-same aid) (plan_removed ids)

-- The artifacts of a merge without conflicts are those that the plan stores.
pub apply_plan-artifacts :
    (cid message : String) (p : Plan) (target other : Context)
    → (apply_plan cid message p target other).artifacts
      ≡ store_all p.pending (remove_all p.operations target.artifacts)
unfolding apply_plan log_commit recompute_stale reindex_by_type
apply_plan-artifacts cid message p target other = ground arith

module _ (dumps : Dumps) (base target other : Context) (k : String) where
  -- The artifacts of the target after the plan, seen at one id.
  pub plan_data :
      (cid message : String) (ids : List String)
      → (contains k ids ≡ true) ⊎ (verdict_at dumps base target other k ≡ keep)
      → is_conflict (verdict_at dumps base target other k) ≡ false
      → data_at k
          (apply_plan cid message (plan_merge dumps ids base target other) target other).artifacts
        ≡ decided (verdict_at dumps base target other k) (data_at k target.artifacts)
  plan_data cid message ids covered fine =
      ap (data_at k)
        (apply_plan-artifacts cid message (plan_merge dumps ids base target other) target other)
      ∙ plan_stored dumps base target other k ids
          (remove_all (plan_merge dumps ids base target other).operations target.artifacts)
      ∙ ap (λ x. if contains k ids then adopted (verdict_at dumps base target other k) x else x)
          (plan_removed dumps base target other k ids target.artifacts)
      ∙ decided_lem (verdict_at dumps base target other k) (contains k ids)
          (data_at k target.artifacts) covered fine

  pub untouched_keep :
      lookup k base.artifacts ≡ none
      → lookup k target.artifacts ≡ none
      → lookup k other.artifacts ≡ none
      → verdict_at dumps base target other k ≡ keep
  unfolding verdict_at verdict data_sig converge
  untouched_keep b t o = ground (arith, b, t, o)
