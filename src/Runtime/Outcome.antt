-- ===== src/Runtime/Outcome.antt =====
-- What the outcome of a turn says, and what a failing generation leaves behind.
use reactifact.Prelude.{
  ℕ, zero, suc, ◌+◌, ◌≡◌, ◌≢◌, refl, Bool, true, false, not, ◌&&◌, Option, none, some, List, arith,
  inl, inr, Bool-cases, Option-cases, eqb,
}
use reactifact.Result.{Result, ok, err, Error, Result-cases, >>=-eq-ok}
use reactifact.Context.{Context, Event}
use reactifact.Budget.{Budget, BudgetTracker, completed, exhausted}
use reactifact.Runtime.Counters.{Turn, stop_reason, budget_exhausted}
use reactifact.Runtime.Outbox.{drain_actions}
use reactifact.Runtime.Generation.{
  Config, Ran, exhaust, has_pending_work, run_once, run_work, run_generations, after_dispatch,
  get_patches, settle, AgentResult, add_runs,
}

exhausted-ne-completed : (b : Option Budget) (t : BudgetTracker) → exhausted b t ≢ some completed
unfolding exhausted
exhausted-ne-completed none t e = cc
exhausted-ne-completed (some b) t e = ground arith

stop_reason-ne-completed : (late : Bool) (t : Turn) → stop_reason late t ≢ some completed
unfolding stop_reason
stop_reason-ne-completed late t e = elim (Option-cases t.tracker) [
  | inl n ↦ ground (arith, n)
  | inr (k, s) ↦ ground (arith, s, exhausted-ne-completed t.active_budget k)
]

-- A turn that a budget stops does not end as completed.
budget_spent-outcome :
    (late : ℕ → Bool) (t : Turn)
    → (budget_exhausted late t).1 ≡ true
    → (budget_exhausted late t).0.outcome ≢ completed
unfolding budget_exhausted
budget_spent-outcome late t spent e = elim (Option-cases (stop_reason (late t.clock_reads) t)) [
  | inl n ↦ ground (arith, n)
  | inr (why, s) ↦ ground (arith, s, stop_reason-ne-completed (late t.clock_reads) t)
]

exhaust-ne-completed : (t : Turn) → (exhaust t).outcome ≢ completed
unfolding exhaust
exhaust-ne-completed t e = ground arith

-- If the run returned, and its outcome is `completed`, then nothing is left to do.
abbrev pub IsQuiescent : Config → Ran → Type 0
IsQuiescent cfg ran =
    (n : ℕ)
    → ran.runs ≡ ok n
    → ran.turn.outcome ≡ completed
    → has_pending_work cfg ran.context ≡ false

run_generations-IsQuiescent :
    (cfg : Config) (left generation : ℕ) (ctx : Context) (t : Turn)
    → IsQuiescent cfg (run_generations cfg left generation ctx t)
unfolding run_generations
run_generations-IsQuiescent cfg zero generation ctx t =
    λ n returned done. absurd (exhaust-ne-completed t done)
run_generations-IsQuiescent cfg (suc left) generation ctx t =
    elim (Bool-cases (cfg.stop_requested generation)) [
      | inl stop ↦ rw (stop, run_generations) (λ n returned done. cc done)
      | inr go ↦ elim (Bool-cases (budget_exhausted cfg.late t).1) [
        | inl spent ↦
            rw (go, spent, run_generations)
              (λ n returned done. absurd (budget_spent-outcome cfg.late t spent done))
        | inr open_ ↦
            let once : Ran = run_once cfg generation ctx (budget_exhausted cfg.late t).0 in
            elim (Result-cases once.runs) [
              | inr (why, e) ↦
                  rw (go, open_, e, run_generations) (λ n returned done. cc (e, returned))
              | inl (m, e) ↦
                  elim (Bool-cases (eqb m 0 && not (has_pending_work cfg once.context))) [
                    | inl last ↦
                        rw (go, open_, e, last, run_generations)
                          (λ n returned done. ground (arith, last))
                    | inr more ↦
                        rw (go, open_, e, more, run_generations)
                          (later m
                            (run_generations cfg left (generation + 1) once.context once.turn)
                            (run_generations-IsQuiescent cfg left (generation + 1) once.context
                              once.turn))
                  ]
            ]
      ]
    ]
  where
    later :
        (m : ℕ) (rest : Ran)
        → IsQuiescent cfg rest
        → IsQuiescent cfg
            (record { context = rest.context; turn = rest.turn; runs = add_runs m rest.runs })
    later m rest h n returned done =
        let (k, e, _) = >>=-eq-ok rest.runs (λ i. ok (m + i)) returned in h k e done

-- If an exception ended the run, the context is the one given.
abbrev pub IsUntouched : Context → Ran → Type 0
IsUntouched ctx ran = (e : Error) → ran.runs ≡ err e → ran.context ≡ ctx

after_dispatch-IsUntouched :
    (cfg : Config) (generation : ℕ) (es : List Event) (ctx : Context) (t : Turn)
    (results : Result (List AgentResult))
    → cfg.dispatcher ≡ none
    → IsUntouched ctx (after_dispatch cfg generation es ctx t results)
unfolding after_dispatch
after_dispatch-IsUntouched cfg generation es ctx t (err why) undelivered = λ e failed. refl
after_dispatch-IsUntouched cfg generation es ctx t (ok rs) undelivered =
    elim (Result-cases (get_patches cfg ctx rs t).patches) [
      | inr (why, p) ↦ rw (p, after_dispatch) (λ e failed. refl)
      | inl (ps, p) ↦
          rw (p, after_dispatch)
            (λ e failed. unfold settle drain_actions in ground (arith, undelivered, failed))
    ]

run_once-IsUntouched :
    (cfg : Config) (generation : ℕ) (ctx : Context) (t : Turn)
    → cfg.dispatcher ≡ none
    → IsUntouched ctx (run_once cfg generation ctx t)
unfolding run_once run_work
run_once-IsUntouched cfg generation ctx t undelivered =
    elim (Bool-cases (has_pending_work cfg ctx)) [
      | inr idle ↦ rw idle (λ e failed. refl)
      | inl work ↦ elim (Bool-cases (budget_exhausted cfg.late t).1) [
        | inl spent ↦ rw (work, spent) (λ e failed. refl)
        | inr open_ ↦
            rw (work, open_)
              (after_dispatch-IsUntouched cfg generation ctx.events ctx _ _ undelivered)
      ]
    ]

-- A run over generations that returns with the outcome `completed` has left no event and no
-- action that its dispatcher would perform.
pub run_generations-completed :
    (cfg : Config) (left generation : ℕ) (ctx : Context) (t : Turn) (n : ℕ)
    → (run_generations cfg left generation ctx t).runs ≡ ok n
    → (run_generations cfg left generation ctx t).turn.outcome ≡ completed
    → has_pending_work cfg (run_generations cfg left generation ctx t).context ≡ false
run_generations-completed cfg left generation ctx t n =
    run_generations-IsQuiescent cfg left generation ctx t n

pub run_once-raised :
    (cfg : Config) (generation : ℕ) (ctx : Context) (t : Turn) (e : Error)
    → cfg.dispatcher ≡ none
    → (run_once cfg generation ctx t).runs ≡ err e
    → (run_once cfg generation ctx t).context ≡ ctx
run_once-raised cfg generation ctx t e undelivered =
    run_once-IsUntouched cfg generation ctx t undelivered e
