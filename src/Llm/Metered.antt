-- ===== src/Llm/Metered.antt =====
-- `BudgetLLM` of reactifact/budget.py and `QuotaLLM` of reactifact/quota.py: the usage of a call is
-- counted, unless the cache answered it. The state of the wrapper stands beside that of the
-- provider; `clock` reads the time off the latter.
pub mod Totals
pub mod Windows
use reactifact.Prelude.{
  ℕ, ◌+◌, String, Bool, true, false, Option, none, some, List, [], ◌∷◌, ◌==◌, if◌then◌else◌,
  string_eq, nat_eq, or_else,
}
use reactifact.Prelude.Dict.{Dict, lookup}
use reactifact.Result.{Result, ok, err}
use reactifact.Budget
use reactifact.Budget.{BudgetTracker}
use reactifact.Quota.{Quota, Store, record_usage}
use reactifact.Llm.{Request, Response, Chunk, Llm}
use reactifact.Llm.Cache.{is_cache_hit}

abbrev pub Usage : Type 0
Usage = Dict String ℕ

-- `usage.get(long) or usage.get(short) or 0`
unfoldable pub tokens_of : String → String → Usage → ℕ
unfolding lookup
tokens_of long short usage =
    let n = or_else (lookup long usage) 0 in if n == 0 then or_else (lookup short usage) 0 else n

abbrev pub prompt_of : Usage → ℕ
prompt_of usage = tokens_of "prompt_tokens" "prompt" usage

abbrev pub completion_of : Usage → ℕ
completion_of usage = tokens_of "completion_tokens" "completion" usage

-- `Pricer`
abbrev pub Pricer : Type 0
Pricer = Option (String → ℕ → ℕ → ℕ)

unfoldable pub cost_of : Pricer → String → ℕ → ℕ → ℕ
cost_of none model prompt completion = 0
cost_of (some price) model prompt completion = price model prompt completion

-- `BudgetLLM._account`, for a usage that may be missing
unfoldable pub account : Pricer → String → Option Usage → BudgetTracker → BudgetTracker
unfolding Budget.record_usage cost_of tokens_of
account pricer model none t = t
account pricer model (some []) t = t
account pricer model (some (entry ∷ usage)) t =
    let prompt = prompt_of (entry ∷ usage) in
    let completion = completion_of (entry ∷ usage) in
    Budget.record_usage prompt completion (cost_of pricer model prompt completion) t

-- What `BudgetLLM.complete` does with the reply.
unfoldable pub metered : Pricer → String → Result Response → BudgetTracker → BudgetTracker
unfolding account is_cache_hit
metered pricer model (err why) t = t
metered pricer model (ok r) t = if is_cache_hit r then t else account pricer model (some r.usage) t

-- `BudgetLLM.stream`, as far as the caller has consumed the chunks.
unfoldable pub metered_stream : Pricer → String → List Chunk → BudgetTracker → BudgetTracker
unfolding account
metered_stream pricer model [] t = t
metered_stream pricer model (c ∷ cs) t =
    metered_stream pricer model cs (account pricer model c.usage t)

-- `QuotaLLM._account`
unfoldable pub charge : Quota → String → Pricer → String → ℕ → Option Usage → ℕ → Store → Store
unfolding record_usage cost_of tokens_of
charge quota key pricer model now usage calls st =
    let prompt = prompt_of (or_else usage []) in
    let completion = completion_of (or_else usage []) in
    record_usage quota key now (prompt + completion) (cost_of pricer model prompt completion) calls
      st

unfoldable pub charged : Quota → String → Pricer → String → ℕ → Result Response → Store → Store
unfolding charge is_cache_hit
charged quota key pricer model now (err why) st = st
charged quota key pricer model now (ok r) st =
    if is_cache_hit r then st else charge quota key pricer model now (some r.usage) 1 st

-- What a chunk of `QuotaLLM.stream` adds, the first one a call.
unfoldable pub charge_chunk : Quota → String → Pricer → String → ℕ → Option Usage → Store → Store
unfolding charge
charge_chunk quota key pricer model now none st = st
charge_chunk quota key pricer model now (some []) st = st
charge_chunk quota key pricer model now (some (entry ∷ usage)) st =
    charge quota key pricer model now (some (entry ∷ usage)) 0 st

-- The rest of `QuotaLLM.stream`, with the time at which each chunk comes.
unfoldable pub charged_rest : Quota → String → Pricer → String → List (ℕ × Chunk) → Store → Store
unfolding charge_chunk
charged_rest quota key pricer model [] st = st
charged_rest quota key pricer model ((now, c) ∷ cs) st =
    charged_rest quota key pricer model cs (charge_chunk quota key pricer model now c.usage st)

unfoldable pub charged_stream : Quota → String → Pricer → String → List (ℕ × Chunk) → Store → Store
unfolding charge charged_rest
charged_stream quota key pricer model [] st = st
charged_stream quota key pricer model ((now, c) ∷ cs) st =
    charged_rest quota key pricer model ((now, c) ∷ cs)
      (charge quota key pricer model now none 1 st)

module _ {S : Type 0} where
  unfoldable pub budget_llm : Pricer → Llm S → Llm (BudgetTracker × S)
  unfolding metered
  budget_llm pricer inner = record {
    model = inner.model;
    complete = λ q (t, s).
        let (s', reply) = inner.complete q s in ((metered pricer inner.model reply t, s'), reply);
  }

  unfoldable pub quota_llm : Quota → String → Pricer → (S → ℕ) → Llm S → Llm (Store × S)
  unfolding charged
  quota_llm quota key pricer clock inner = record {
    model = inner.model;
    complete = λ q (st, s).
        let (s', reply) = inner.complete q s in
        ((charged quota key pricer inner.model (clock s') reply st, s'), reply);
  }
