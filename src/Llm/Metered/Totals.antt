-- ===== src/Llm/Metered/Totals.antt =====
-- What the budget of a turn counts when the cache stands under it: each answer of the provider once.
use reactifact.Prelude.{
  ℕ, ◌+◌, String, ◌≡◌, refl, ap, ◌∙◌, false, some, List, [], ◌∷◌, arith, inl, inr, Option-cases,
  string_eq,
}
use reactifact.Prelude.Dict.{lookup}
use reactifact.Json.{Json}
use reactifact.Result.{Result, ok, err}
use reactifact.Budget
use reactifact.Budget.{BudgetTracker, no_usage}
use reactifact.Llm.{Request, Response}
use reactifact.Llm.Calls.{Call, Behaviour, observed, run}
use reactifact.Llm.Cache.{
  Store, is_cache_hit, complete, keep_reply, from_stored, key_of, caching_llm,
}
use reactifact.Llm.Metered.{
  Usage, prompt_of, completion_of, tokens_of, Pricer, cost_of, account, metered, budget_llm,
}

-- The sum over the answers of the provider.
abbrev pub total : (Usage → ℕ) → List Call → ℕ
total f [] = 0
total f (c ∷ cs) = elim c.reply [ err why ↦ total f cs | ok r ↦ total f cs + f r.usage ]

-- The price of a usage; an empty one costs nothing.
abbrev pub priced : Pricer → String → Usage → ℕ
priced pricer model [] = 0
priced pricer model (e ∷ u) = cost_of pricer model (prompt_of (e ∷ u)) (completion_of (e ∷ u))

-- A provider does not mark its responses as hits of the cache.
abbrev pub IsUnmarked : Behaviour → Type 0
IsUnmarked b =
    (cs : List Call) (q : Request) (r : Response) → b cs q ≡ ok r → is_cache_hit r ≡ false

module _ (pricer : Pricer) (model : String) where
  -- The counters hold the sums over the answers.
  pub record Counts (t : BudgetTracker) (calls : List Call) : Type 0 where
    pub prompts : t.prompt_tokens ≡ total prompt_of calls
    pub completions : t.completion_tokens ≡ total completion_of calls
    pub costs : t.cost ≡ total (priced pricer model) calls

  account_lem :
      (u : Usage) (t : BudgetTracker)
      → ((account pricer model (some u) t).prompt_tokens ≡ t.prompt_tokens + prompt_of u)
        × ((account pricer model (some u) t).completion_tokens
            ≡ t.completion_tokens + completion_of u)
        × ((account pricer model (some u) t).cost ≡ t.cost + priced pricer model u)
  unfolding account tokens_of lookup Budget.record_usage
  account_lem [] t = (omega arith, omega arith, omega arith)
  account_lem (e ∷ u) t = (refl, refl, refl)

  account-Counts :
      (q : Request) (r : Response) (t : BudgetTracker) (calls : List Call)
      → Counts t calls
      → Counts
          (account pricer model (some r.usage) t)
          (record { request = q; reply = ok r } ∷ calls)
  account-Counts q r t calls h =
      let (prompts, completions, costs) = account_lem r.usage t in
      record {
        prompts = prompts ∙ ap (λ n. n + prompt_of r.usage) h.prompts;
        completions = completions ∙ ap (λ n. n + completion_of r.usage) h.completions;
        costs = costs ∙ ap (λ n. n + priced pricer model r.usage) h.costs;
      }

  module _ (digest : Json → String) (str : Json → String) (b : Behaviour)
      (unmarked : IsUnmarked b) where
    keep_reply-Counts :
        (q : Request) (key : String) (t : BudgetTracker) (s : Store × List Call)
        (r : Result Response)
        → ((a : Response) → r ≡ ok a → is_cache_hit a ≡ false)
        → Counts t s.1
        → Counts
            (metered pricer model
              (keep_reply key s.0 (record { request = q; reply = r } ∷ s.1) r).1
              t)
            (keep_reply key s.0 (record { request = q; reply = r } ∷ s.1) r).0.1
    unfolding metered keep_reply
    keep_reply-Counts q key t s (err why) plain h = record {
      prompts = h.prompts;
      completions = h.completions;
      costs = h.costs;
    }
    keep_reply-Counts q key t s (ok r) plain h = rw (plain r refl) (account-Counts q r t s.1 h)

    complete-Counts :
        (q : Request) (t : BudgetTracker) (s : Store × List Call)
        → Counts t s.1
        → Counts
            (metered pricer model (complete digest str (observed model b) q s).1 t)
            (complete digest str (observed model b) q s).0.1
    unfolding complete metered
    complete-Counts q t s h = elim (Option-cases (lookup (key_of digest str model q) s.0)) [
      | inl unknown ↦
          rw (unknown, complete)
            (keep_reply-Counts q (key_of digest str model q) t s (b s.1 q) (unmarked s.1 q) h)
      | inr (v, known) ↦ rw (known, complete, from_stored, metered, is_cache_hit) h
    ]

    run-Counts :
        (qs : List Request) (t : BudgetTracker) (s : Store × List Call)
        → Counts t s.1
        → Counts
            (run (budget_llm pricer (caching_llm digest str (observed model b))) qs (t, s)).0.0
            (run (budget_llm pricer (caching_llm digest str (observed model b))) qs (t, s)).0.1.1
    unfolding budget_llm caching_llm
    run-Counts [] t s h = h
    run-Counts (q ∷ qs) t s h =
        let reply = complete digest str (observed model b) q s in
        run-Counts qs (metered pricer model reply.1 t) reply.0 (complete-Counts q t s h)

-- Over any sequence of requests from fresh counters and an empty cache, the counters of a budget
-- over a cache over a provider are the sums of the usage and of the price over the answers of the
-- provider, each answer once: what the cache answers and what raises counts nothing. The provider
-- does not mark its responses as hits.
pub run-budget_llm :
    (pricer : Pricer) (digest : Json → String) (str : Json → String) (model : String)
    (b : Behaviour) (qs : List Request)
    → IsUnmarked b
    → Counts pricer model
        (run
          (budget_llm pricer (caching_llm digest str (observed model b)))
          qs
          (no_usage, ([], []))).0.0
        (run
          (budget_llm pricer (caching_llm digest str (observed model b)))
          qs
          (no_usage, ([], []))).0.1.1
run-budget_llm pricer digest str model b qs unmarked =
    run-Counts pricer model digest str b unmarked qs no_usage ([], [])
      (record { prompts = refl; completions = refl; costs = refl })
