-- ===== src/Llm/Calls.antt =====
-- A provider whose replies are any function of the calls so far, and sequences of calls. The calls
-- stand newest first.
use reactifact.Prelude.{String, List, [], ◌∷◌}
use reactifact.Result.{Result}
use reactifact.Llm.{Request, Response, Llm}

pub record Call : Type 0 where
  pub request : Request
  pub reply : Result Response

abbrev pub Behaviour : Type 0
Behaviour = List Call → Request → Result Response

abbrev pub observed : String → Behaviour → Llm (List Call)
observed model b = record {
  model = model;
  complete = λ request calls.
      (record { request = request; reply = b calls request } ∷ calls, b calls request);
}

-- Calls one after the other, each made whatever the one before it gave.
abbrev pub run : {S : Type 0} → Llm S → List Request → S → S × List (Result Response)
run llm [] s = (s, [])
run llm (q ∷ qs) s =
    let first = llm.complete q s in let rest = run llm qs first.0 in (rest.0, first.1 ∷ rest.1)
