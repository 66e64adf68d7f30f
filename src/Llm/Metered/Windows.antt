-- ===== src/Llm/Metered/Windows.antt =====
-- What one call through `QuotaLLM` adds to the usage that counts for its key.
use reactifact.Prelude.{
  ℕ, ◌+◌, String, ◌≡◌, refl, ap, ◌∙◌, true, false, some, ◌==◌, inl, inr, Bool-cases, string_eq,
}
use reactifact.Prelude.Dict.{lookup}
use reactifact.Result.{Result, ok, err}
use reactifact.Quota.{Quota, Store, expired, window, add_usage}
use reactifact.Quota.Accounting.{counted, record_usage_lem}
use reactifact.Llm.{Request, Response, Llm}
use reactifact.Llm.Cache.{is_cache_hit}
use reactifact.Llm.Metered.{prompt_of, completion_of, Pricer, cost_of, charge, charged, quota_llm}

-- What a call leaves in the store: as it was after an error or a hit of the cache, else one call more
-- for the key, with its tokens and its price, as long as the window does not expire.
abbrev pub IsBilled :
    Quota → String → Pricer → String → ℕ → ℕ → Store → Store → Result Response → Type 0
IsBilled quota key pricer model now later st st' (err why) = st' ≡ st
IsBilled quota key pricer model now later st st' (ok r) = elim (is_cache_hit r) [
  | true ↦ st' ≡ st
  | false ↦
      counted quota key later st'
      ≡ add_usage (prompt_of r.usage + completion_of r.usage)
          (cost_of pricer model (prompt_of r.usage) (completion_of r.usage)) 1
          (counted quota key now st)
]

module _ (quota : Quota) (key other : String) (now later : ℕ) (st : Store) where
  charged-IsBilled :
      (pricer : Pricer) (model : String) (reply : Result Response)
      → expired quota later (window quota key now st).1 ≡ false
      → (key == other) ≡ false
      → IsBilled quota key pricer model now later st
          (charged quota key pricer model now reply st)
          reply
        × (lookup other (charged quota key pricer model now reply st) ≡ lookup other st)
  unfolding charge charged
  charged-IsBilled pricer model (err why) open_ apart = (refl, refl)
  charged-IsBilled pricer model (ok r) open_ apart = elim (Bool-cases (is_cache_hit r)) [
    | inl hit ↦ rw (hit, IsBilled) (charged_hit hit, refl)
    | inr fresh ↦
        let (used, over, apart_) =
          record_usage_lem quota key other now later (prompt_of r.usage + completion_of r.usage)
            (cost_of pricer model (prompt_of r.usage) (completion_of r.usage)) 1 st open_ apart in
        rw (fresh, IsBilled) (ap (counted quota key later) (charged_fresh fresh) ∙ used, apart_)
  ]
    where
      charged_hit : is_cache_hit r ≡ true → charged quota key pricer model now (ok r) st ≡ st
      charged_hit e = rw (e, charged) refl

      charged_fresh :
          is_cache_hit r ≡ false
          → charged quota key pricer model now (ok r) st
            ≡ charge quota key pricer model now (some r.usage) 1 st
      charged_fresh e = rw (e, charged) refl

-- A call through the quota returns what the provider returned. If that is an answer that no cache
-- gave, the usage that counts for the key, as long as the window does not expire, grows by one call
-- with its tokens and its price; an error or a hit of the cache leaves the store as it was. The
-- other keys keep theirs.
pub quota_llm_lem :
    {S : Type 0} (quota : Quota) (key other : String) (pricer : Pricer) (clock : S → ℕ)
    (inner : Llm S) (q : Request) (st : Store) (s : S) (later : ℕ)
    → expired quota later (window quota key (clock (inner.complete q s).0) st).1 ≡ false
    → (key == other) ≡ false
    → (((quota_llm quota key pricer clock inner).complete q (st, s)).1 ≡ (inner.complete q s).1)
      × IsBilled quota key pricer inner.model
          (clock (inner.complete q s).0)
          later
          st
          ((quota_llm quota key pricer clock inner).complete q (st, s)).0.0
          (inner.complete q s).1
      × (lookup other ((quota_llm quota key pricer clock inner).complete q (st, s)).0.0
          ≡ lookup other st)
unfolding quota_llm
quota_llm_lem quota key other pricer clock inner q st s later open_ apart =
    let (billed, apart_) =
      charged-IsBilled quota key other (clock (inner.complete q s).0) later st pricer inner.model
        (inner.complete q s).1 open_ apart in
    (refl, billed, apart_)
