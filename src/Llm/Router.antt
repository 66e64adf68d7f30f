-- ===== src/Llm/Router.antt =====
-- reactifact/routing.py: `RouterLLM`. `fallback` is `should_fallback`; `on_fallback` only reports.
pub mod Laws
use reactifact.Prelude.{String, Bool, true, false, List, [], ◌∷◌, if◌then◌else◌}
use reactifact.Result.{Result, ok, err, Error, value_error}
use reactifact.Llm.{Request, Response, Llm}

module _ {S : Type 0} (fallback : Error → Bool) where
  -- The loop of `complete`; its last line, for no provider, is not reached.
  unfoldable pub complete : List (Llm S) → Request → S → S × Result Response
  complete [] q s = (s, err value_error)
  complete (p ∷ []) q s = p.complete q s
  complete (p ∷ p' ∷ ps) q s =
      let (s', reply) = p.complete q s in
      elim reply [
        | ok r ↦ (s', ok r)
        | err why ↦ if fallback why then complete (p' ∷ ps) q s' else (s', err why)
      ]

  -- `RouterLLM(providers)`, whose model is that of the first
  unfoldable pub router_llm : List (Llm S) → Result (Llm S)
  unfolding complete
  router_llm [] = err value_error
  router_llm (p ∷ ps) = ok (record { model = p.model; complete = complete (p ∷ ps) })
