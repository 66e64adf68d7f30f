-- ===== src/Llm/Structured/Attempts.antt =====
-- What the attempts of a structured call come to.
use mathlib.Core.Path.{subst}
use reactifact.Prelude.{
  ℕ, zero, suc, ◌+◌, ◌≤◌, String, ◌≡◌, refl, sym, Option, none, some, List, [], ◌∷◌, arith, length,
  inl, inr, ◌⊎◌,
}
use reactifact.Result.{Result, Error}
use reactifact.Llm.{Response}
use reactifact.Llm.Calls.{Call, Behaviour, observed}
use reactifact.Llm.Structured.{
  Failure, no_provider, Outcome, got, gave_up, Settings, request_of, first_text, judge, loop, spare,
  attempt,
}

module _ {M : Type 0} (parse : String → Option M) (c : Settings M) where
  -- What a reply is worth: the model that it holds, or why it is refused.
  abbrev pub verdict : Result Response → Outcome M
  verdict r = (judge parse c r).0

  -- The calls, newest first, were all refused.
  abbrev pub AllRefused : List Call → Type 0
  AllRefused [] = Unit
  AllRefused (x ∷ xs) =
      ((why : Failure) × (cause : Option Error) × (verdict x.reply ≡ gave_up why cause))
      × AllRefused xs

  -- Either the last call holds a model, or all attempts are spent.
  abbrev pub IsSpent : Outcome M → ℕ → ℕ → Type 0
  IsSpent (got m) used total = used ≤ total
  IsSpent (gave_up why cause) used total = used ≡ total

  -- The outcome is the verdict on the last of the calls, and those before it were refused.
  pub record Ends (total : ℕ) (calls : List Call) (outcome : Outcome M) : Type 0 where
    pub last : Call
    pub before : List Call
    pub split : calls ≡ last ∷ before
    pub judged : outcome ≡ verdict last.reply
    pub refused : AllRefused before
    pub spent : IsSpent outcome (length calls) total

  Outcome-cases :
      (o : Outcome M)
      → ((m : M) × (o ≡ got m))
        ⊎ ((why : Failure) × (cause : Option Error) × (o ≡ gave_up why cause))
  Outcome-cases (got m) = inl (m, refl)
  Outcome-cases (gave_up why cause) = inr (why, cause, refl)

  IsSpent-last : (o : Outcome M) (used : ℕ) → IsSpent o used used
  IsSpent-last (got m) used = omega arith
  IsSpent-last (gave_up why cause) used = refl

  module _ (model : String) (b : Behaviour) where
    abbrev called : String → List Call → List Call
    called s calls =
        record { request = request_of parse c s; reply = b calls (request_of parse c s) } ∷ calls

    abbrev next : String → List Call → String
    next s calls = (judge parse c (b calls (request_of parse c s))).1

    loop-Ends :
        (n : ℕ) (s : String) (calls : List Call)
        → AllRefused calls
        → Ends
            (suc n + length calls)
            (loop parse c (observed model b) n s calls).0
            (loop parse c (observed model b) n s calls).1
    unfolding loop
    loop-Ends zero s calls refused = record {
      last = record { request = request_of parse c s; reply = b calls (request_of parse c s) };
      before = calls;
      split = refl;
      judged = refl;
      refused = refused;
      spent =
          subst (λ k. IsSpent (verdict (b calls (request_of parse c s))) (suc (length calls)) k)
            (omega arith)
            (IsSpent-last (verdict (b calls (request_of parse c s))) (suc (length calls)));
    }
    loop-Ends (suc n) s calls refused =
        elim (Outcome-cases (verdict (b calls (request_of parse c s)))) [
          | inl (m, e) ↦
              rw (e, loop)
                (record {
                  last = record {
                    request = request_of parse c s;
                    reply = b calls (request_of parse c s);
                  };
                  before = calls;
                  split = refl;
                  judged = sym e;
                  refused = refused;
                  spent = omega arith;
                })
          | inr (why, cause, e) ↦
              rw (e, loop)
                (subst
                  (λ k.
                    Ends k (loop parse c (observed model b) n (next s calls) (called s calls)).0
                      (loop parse c (observed model b) n (next s calls) (called s calls)).1)
                  (omega arith)
                  (loop-Ends n (next s calls) (called s calls) ((why, cause, e), refused)))
        ]

-- A structured call over a provider, whatever the replies of that depend on, makes at least one call
-- and at most as many as there are attempts, but one if there are none. Its outcome is the verdict
-- on the last reply: a model that the reply holds and the rule accepts, or why there is none. All
-- replies before the last were refused, and a failure is reported only when the attempts are spent.
-- Without a provider no call is made, and that is reported.
pub attempt-Ends :
    {M : Type 0} (parse : String → Option M) (c : Settings M) (model : String) (b : Behaviour)
    → Ends parse c
        (suc (spare c.attempts))
        (attempt parse c (some (observed model b)) []).0
        (attempt parse c (some (observed model b)) []).1
      × ((calls : List Call)
          → attempt {M = M} parse c {S = List Call} none calls ≡ (calls, gave_up no_provider none))
unfolding attempt
attempt-Ends parse c model b = (
  subst
      (λ k.
        Ends parse c k
          (loop parse c (observed model b) (spare c.attempts) (first_text parse c) []).0
          (loop parse c (observed model b) (spare c.attempts) (first_text parse c) []).1)
      (omega arith) (loop-Ends parse c model b (spare c.attempts) (first_text parse c) [] tt),
  λ calls. refl,
)
