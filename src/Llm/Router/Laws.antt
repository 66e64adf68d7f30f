-- ===== src/Llm/Router/Laws.antt =====
-- Which provider decides a call of `RouterLLM`.
use mathlib.Core.Path.{subst}
use reactifact.Prelude.{
  ◌≡◌, refl, sym, ap, Bool, true, false, List, [], ◌∷◌, ◌++◌, ◌⊎◌, inl, inr, Bool-cases,
  if◌then◌else◌,
}
use reactifact.Result.{Result, ok, err, Error, value_error}
use reactifact.Llm.{Request, Response, Llm}
use reactifact.Llm.Router.{complete, router_llm}

-- Why no further provider is called.
abbrev pub IsFinal : (Error → Bool) → {S : Type 0} → List (Llm S) → Result Response → Type 0
IsFinal fallback after (ok r) = Unit
IsFinal fallback after (err why) = (after ≡ []) ⊎ (fallback why ≡ false)

last-IsFinal :
    (fallback : Error → Bool) (S : Type 0) (r : Result Response) → IsFinal fallback {S = S} [] r
last-IsFinal fallback S (ok r) = tt
last-IsFinal fallback S (err why) = inl refl

module _ {S : Type 0} (fallback : Error → Bool) (q : Request) where
  -- Providers that are called one after the other, from one state to another, and all raise an error
  -- on which the router falls back.
  pub data Fails : List (Llm S) → S → S → Type 0 where
    none_left : {s : S} → Fails [] s s
    next :
        {p : Llm S} {ps : List (Llm S)} {s s' s'' : S} (why : Error)
        → p.complete q s ≡ (s', err why)
        → fallback why ≡ true
        → Fails ps s' s''
        → Fails (p ∷ ps) s s''

  pub record Decides (providers : List (Llm S)) (s : S) (outcome : S × Result Response)
      : Type 0 where
    pub before : List (Llm S)
    pub decider : Llm S
    pub after : List (Llm S)
    pub state : S
    pub split : providers ≡ before ++ decider ∷ after
    pub failed : Fails before s state
    pub decided : outcome ≡ decider.complete q state
    pub final : IsFinal fallback after outcome.1

  first-Decides :
      (p : Llm S) (ps : List (Llm S)) (s : S) (outcome : S × Result Response)
      → outcome ≡ p.complete q s
      → IsFinal fallback ps outcome.1
      → Decides (p ∷ ps) s outcome
  first-Decides p ps s outcome e f = record {
    before = [];
    decider = p;
    after = ps;
    state = s;
    split = refl;
    failed = none_left;
    decided = e;
    final = f;
  }

  later-Decides :
      (p : Llm S) (ps : List (Llm S)) (s s' : S) (why : Error) (outcome : S × Result Response)
      → p.complete q s ≡ (s', err why)
      → fallback why ≡ true
      → Decides ps s' outcome
      → Decides (p ∷ ps) s outcome
  later-Decides p ps s s' why outcome e f d = record {
    before = p ∷ d.before;
    decider = d.decider;
    after = d.after;
    state = d.state;
    split = ap (◌∷◌ p) d.split;
    failed = next why e f d.failed;
    decided = d.decided;
    final = d.final;
  }

  -- What the router makes of the outcome of a provider that is not the last.
  abbrev chosen : Llm S → List (Llm S) → S × Result Response → S × Result Response
  chosen p' ps (s', ok a) = (s', ok a)
  chosen p' ps (s', err why) =
      if fallback why then complete fallback (p' ∷ ps) q s' else (s', err why)

  complete-cons :
      (p p' : Llm S) (ps : List (Llm S)) (s : S)
      → complete fallback (p ∷ p' ∷ ps) q s ≡ chosen p' ps (p.complete q s)
  unfolding complete
  complete-cons p p' ps s = refl

  decides :
      (p : Llm S) (ps : List (Llm S)) (s : S) → Decides (p ∷ ps) s (complete fallback (p ∷ ps) q s)
  unfolding complete
  decides p [] s =
      first-Decides p [] s (p.complete q s) refl (last-IsFinal fallback S (p.complete q s).1)
  decides p (p' ∷ ps) s =
      subst (λ o. Decides (p ∷ p' ∷ ps) s o) (sym (complete-cons p p' ps s))
        (go (p.complete q s) refl (λ s'. decides p' ps s'))
    where
      go :
          (o : S × Result Response)
          → o ≡ p.complete q s
          → ((s' : S) → Decides (p' ∷ ps) s' (complete fallback (p' ∷ ps) q s'))
          → Decides (p ∷ p' ∷ ps) s (chosen p' ps o)
      go (s', ok a) e later = first-Decides p (p' ∷ ps) s (s', ok a) e tt
      go (s', err why) e later = elim (Bool-cases (fallback why)) [
        | inl falls ↦ rw falls (later-Decides p (p' ∷ ps) s s' why _ (sym e) falls (later s'))
        | inr stays ↦ rw stays (first-Decides p (p' ∷ ps) s (s', err why) e (inr stays))
      ]

-- A router over at least one provider gives the outcome of one of them. Those before it were called
-- in order, each from the state that the one before it left, and raised errors on which the router
-- falls back; those after it were not called, since the outcome is a response, or an error of the
-- last provider or one on which the router does not fall back. Without a provider there is no
-- router.
pub router_llm_lem :
    {S : Type 0} (fallback : Error → Bool) (p : Llm S) (ps : List (Llm S)) (q : Request) (s : S)
    → ((llm : Llm S) × (router_llm fallback (p ∷ ps) ≡ ok llm)
        × Decides fallback q (p ∷ ps) s (llm.complete q s))
      × (router_llm {S = S} fallback [] ≡ err value_error)
unfolding router_llm
router_llm_lem fallback p ps q s = ((_, refl, decides fallback q p ps s), refl)
