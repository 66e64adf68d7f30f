-- ===== src/Runtime/Limits.antt =====
-- The run limit of a turn is never passed.
use reactifact.Prelude.{
  ℕ, ◌+◌, ◌≤◌, ◌≡◌, refl, Bool, false, some, List, [], ◌∷◌, arith, length, ap, ◌∙◌, inl, inr,
  Bool-cases, Option-cases,
}
use reactifact.Result.{Result-cases}
use reactifact.Context.{Context}
use reactifact.Runtime.Counters.{Turn, max_runs_of, stop_reason, budget_exhausted}
use reactifact.Runtime.Generation.{Config, AgentResult, patch_of, count_run, get_patches}

-- The turn has made no more runs than its budget allows.
abbrev pub IsWithin : Turn → Type 0
IsWithin t = (m : ℕ) → max_runs_of t.active_budget ≡ some m → t.runs_used ≤ m

-- A check that lets the turn go on changes only the count of clock readings, and one more run fits.
budget_open :
    (late : ℕ → Bool) (t : Turn)
    → (budget_exhausted late t).1 ≡ false
    → ((budget_exhausted late t).0 ≡ record t { clock_reads = t.clock_reads + 1 })
      × ((m : ℕ) → max_runs_of t.active_budget ≡ some m → t.runs_used + 1 ≤ m)
unfolding budget_exhausted stop_reason
budget_open late t open_ = (ground arith, λ m e. ground arith)

budget_same :
    (late : ℕ → Bool) (t : Turn)
    → ((budget_exhausted late t).0.runs_used ≡ t.runs_used)
      × ((budget_exhausted late t).0.active_budget ≡ t.active_budget)
unfolding budget_exhausted
budget_same late t = elim (Option-cases (stop_reason (late t.clock_reads) t)) [
  | inl e ↦ rw (e, budget_exhausted) (refl, refl)
  | inr (why, e) ↦ rw (e, budget_exhausted) (refl, refl)
]

get_patches-IsWithin :
    (cfg : Config) (ctx : Context) (rs : List AgentResult) (t : Turn)
    → IsWithin t
    → IsWithin (get_patches cfg ctx rs t).turn
      × ((get_patches cfg ctx rs t).turn.runs_used ≡ t.runs_used + (get_patches cfg ctx rs t).runs)
      × ((get_patches cfg ctx rs t).runs ≤ length rs)
      × ((get_patches cfg ctx rs t).turn.active_budget ≡ t.active_budget)
unfolding get_patches count_run
get_patches-IsWithin cfg ctx [] t within = (within, omega arith, omega arith, refl)
get_patches-IsWithin cfg ctx (r ∷ rs) t within =
    let next : Turn = count_run r (budget_exhausted cfg.late t).0 in
    let same = budget_same cfg.late t in
    elim (Bool-cases (budget_exhausted cfg.late t).1) [
      | inl spent ↦
          rw (spent, get_patches)
            (
              λ m e. ground (arith, within m, same, e),
              ground (arith, same),
              omega arith,
              ground (arith, same),
            )
      | inr open_ ↦
          let room : IsWithin next =
            λ m e. ground (arith, (budget_open cfg.late t open_).1 m, same, e) in
          elim (Result-cases (patch_of cfg ctx r)) [
            | inl (ps, e) ↦
                let (ih_within, ih_count, ih_length, ih_budget) =
                  get_patches-IsWithin cfg ctx rs next room in
                rw (open_, e, get_patches)
                  (
                    ih_within,
                    ground (arith, ih_count, same),
                    omega (arith, ih_length),
                    ground (arith, ih_budget, same),
                  )
            | inr (why, e) ↦
                rw (open_, e, get_patches)
                  (room, ground (arith, same), omega arith, ground (arith, same))
          ]
    ]

-- The results of a generation are counted one by one: the counter grows by the runs that are
-- reported, at most one for each result, and a turn with at most `max_runs` runs stays so.
pub get_patches-runs_used :
    (cfg : Config) (ctx : Context) (rs : List AgentResult) (t : Turn) (m : ℕ)
    → max_runs_of t.active_budget ≡ some m
    → t.runs_used ≤ m
    → ((get_patches cfg ctx rs t).turn.runs_used ≤ m)
      × ((get_patches cfg ctx rs t).turn.runs_used ≡ t.runs_used + (get_patches cfg ctx rs t).runs)
      × ((get_patches cfg ctx rs t).runs ≤ length rs)
get_patches-runs_used cfg ctx rs t m e le =
    let (within, counted, few, same) =
      get_patches-IsWithin cfg ctx rs t (λ k f. ground (arith, f, e, le)) in
    (within m (ap max_runs_of same ∙ e), counted, few)
