-- ===== src/Branching/Verdicts.antt =====
-- The verdict that the merge of reactifact/branching.py reaches on one artifact.
use mathlib.Core.Option
use reactifact.Prelude.{
  String, ◌≡◌, refl, Bool, true, false, not, ◌&&◌, ◌||◌, Option, none, some, arith, ◌⊎◌,
  if◌then◌else◌, string_eq, inl, inr, Option-cases, opt_beq, opt_beq_iff, ap,
}
use reactifact.Prelude.Dict.{lookup}
use reactifact.Model.{Model, model_eq}
use reactifact.Artifact.{Artifact}
use reactifact.Context.{Context}
use reactifact.Branching.{
  Dumps, Verdict, keep, conflict, drop, adopt, verdict, converge, take_other, data_sig, intent,
  is_dispatched, is_action, is_undispatched,
}
use reactifact.Runtime.Replay.{data_at}

-- The verdict on an id.
unfoldable pub verdict_at : Dumps → Context → Context → Context → String → Verdict
unfolding verdict
verdict_at dumps base target other k =
    verdict dumps (lookup k base.artifacts) (lookup k target.artifacts) (lookup k other.artifacts)

abbrev pub is_drop : Verdict → Bool
is_drop drop = true
is_drop _ = false

abbrev pub is_conflict : Verdict → Bool
is_conflict conflict = true
is_conflict _ = false

-- What a verdict makes of the data that the target holds.
abbrev pub decided : Verdict → Option Model → Option Model
decided keep t = t
decided conflict t = t
decided drop t = none
decided (adopt d) t = some d

abbrev pub adopted : Verdict → Option Model → Option Model
adopted (adopt d) t = some d
adopted keep t = t
adopted conflict t = t
adopted drop t = t

-- The signature of the data that a context holds under an id.
abbrev pub intent_at : Dumps → String → Context → Option String
intent_at dumps k ctx = data_sig dumps (lookup k ctx.artifacts)

-- What the two passes of the plan make of the data under one id.
pub decided_lem :
    (v : Verdict) (inside : Bool) (t : Option Model)
    → (inside ≡ true) ⊎ (v ≡ keep)
    → is_conflict v ≡ false
    → (if inside
        then adopted v (if inside && is_drop v then none else t)
        else (if inside && is_drop v then none else t))
      ≡ decided v t
decided_lem keep inside t covered fine = ground arith
decided_lem conflict inside t covered fine = ground arith
decided_lem drop inside t covered fine = ground arith
decided_lem (adopt d) inside t covered fine = ground arith

-- The verdict as a three-way merge: the side that moved wins.
pub verdict_lem :
    (dumps : Dumps) (b t o : Option Artifact)
    → is_conflict (verdict dumps b t o) ≡ false
    → Option.map
        (intent dumps)
        (decided (verdict dumps b t o) (Option.map (λ (a : Artifact). a.data_) t))
      ≡ (if opt_beq (data_sig dumps t) (data_sig dumps b)
          then data_sig dumps o
          else data_sig dumps t)
unfolding verdict data_sig converge take_other
verdict_lem dumps b none none fine =
    ground (arith, opt_beq_iff (data_sig dumps none) (data_sig dumps b))
verdict_lem dumps b none (some o) fine = ground (
  arith,
  opt_beq_iff (data_sig dumps none) (data_sig dumps b),
  opt_beq_iff (data_sig dumps (some o)) (data_sig dumps b),
)
verdict_lem dumps b (some t) none fine = ground (
  arith,
  opt_beq_iff (data_sig dumps (some t)) (data_sig dumps b),
  opt_beq_iff (data_sig dumps none) (data_sig dumps b),
)
verdict_lem dumps b (some t) (some o) fine = ground (
  arith,
  opt_beq_iff (data_sig dumps (some t)) (data_sig dumps b),
  opt_beq_iff (data_sig dumps (some o)) (data_sig dumps b),
  opt_beq_iff (data_sig dumps (some t)) (data_sig dumps (some o)),
)

-- Whether three versions of an artifact are of pairwise different signatures.
abbrev pub diverged : Dumps → Option Artifact → Option Artifact → Option Artifact → Bool
diverged dumps b t o =
    not (opt_beq (data_sig dumps t) (data_sig dumps o))
    && not (opt_beq (data_sig dumps o) (data_sig dumps b))
    && not (opt_beq (data_sig dumps t) (data_sig dumps b))

pub conflict_lem :
    (dumps : Dumps) (b t o : Option Artifact)
    → is_conflict (verdict dumps b t o) ≡ diverged dumps b t o
unfolding verdict data_sig converge take_other
conflict_lem dumps b none none = ground arith
conflict_lem dumps b none (some o) = ground arith
conflict_lem dumps b (some t) none = ground arith
conflict_lem dumps b (some t) (some o) = ground arith

-- An action that either side has dispatched.
pub dispatched_lem :
    (dumps : Dumps) (t o : Artifact) (old : Option Artifact)
    → is_action t.data_ ≡ true
    → is_action o.data_ ≡ true
    → intent dumps t.data_ ≡ intent dumps o.data_
    → (is_dispatched t.data_ || is_dispatched o.data_) ≡ true
    → Option.map is_dispatched (decided (verdict dumps old (some t) (some o)) (some t.data_))
      ≡ some true
unfolding verdict data_sig converge take_other is_dispatched is_undispatched
dispatched_lem dumps t o old acts_t acts_o same either =
    ground (arith, opt_beq_iff (data_sig dumps (some t)) (data_sig dumps (some o)))

pub no_conflict :
    (inside : Bool) (v : Verdict)
    → (inside ≡ true) ⊎ (v ≡ keep)
    → (inside && is_conflict v) ≡ false
    → is_conflict v ≡ false
no_conflict inside v covered e = ground (arith, ap is_conflict)

pub conflict_if :
    (inside : Bool) (v : Verdict)
    → (inside ≡ true) ⊎ (v ≡ keep)
    → (inside && is_conflict v) ≡ is_conflict v
conflict_if true v covered = refl
conflict_if false v (inl inside) = ground arith
conflict_if false v (inr same) = rw same refl

pub intent_at-data :
    (dumps : Dumps) (k : String) (ctx : Context)
    → intent_at dumps k ctx ≡ Option.map (intent dumps) (data_at k ctx.artifacts)
unfolding data_sig
intent_at-data dumps k ctx = elim (Option-cases (lookup k ctx.artifacts)) [
  | inl e ↦ rw e refl
  | inr (a, e) ↦ rw e refl
]
