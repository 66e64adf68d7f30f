-- ===== src/Llm/Structured.antt =====
-- reactifact/structured.py: calls of a model whose reply must be an object of some schema. A section
-- holds what the caller and pydantic give: `validate_json` and `validate_loaded` read a text as a
-- model, the latter by way of `json.loads`. `None` with a call of `on_error` is the value `gave_up`;
-- the pause between two attempts has no effect on the state.
pub mod Extract
pub mod Balanced
pub mod Attempts
pub mod Variants
use Prim.Native.String.{◌++◌}
use reactifact.Prelude.{
  ℕ, zero, suc, String, Bool, true, false, Option, none, some, List, [], ◌∷◌, ◌==◌, if◌then◌else◌,
  string_eq,
}
use reactifact.Json.{Json, text, obj, flag, end, field}
use reactifact.Result.{Result, ok, err, Error}
use reactifact.Llm.{Role, system, user, Message, Request, Response, Llm}
use reactifact.Llm.Structured.Extract.{extract_json}

-- `StructuredLLMFailure`
pub data Failure : Type 0 where
  no_provider provider_error parse_error validation_error : Failure

pub data Outcome (M : Type 0) : Type 0 where
  got : M → Outcome M
  gave_up : Failure → Option Error → Outcome M

abbrev default_parse_repair : String
default_parse_repair = "Previous reply was not valid JSON. Return a single strict JSON object only."

abbrev default_validation_repair : String
default_validation_repair =
    "The previous reply violated a required rule. Return a corrected single strict JSON object only."

abbrev after_failure : String
after_failure = "The previous request failed. Return a single strict JSON object only."

module _ {M : Type 0} (validate_json validate_loaded : String → Option M) where
  -- One candidate of `parse_structured`
  unfoldable pub parse_candidate : String → Option M
  parse_candidate s =
      if s == ""
      then none
      else elim (validate_json s) [ some m ↦ some m | none ↦ validate_loaded s ]

  unfoldable pub parse_structured : String → Option M
  unfolding parse_candidate extract_json
  parse_structured s = elim (parse_candidate s) [
    | some m ↦ some m
    | none ↦ elim (extract_json s) [ none ↦ none | some t ↦ parse_candidate t ]
  ]

-- The arguments of a call that stay the same over its attempts.
pub record Settings (M : Type 0) : Type 0 where
  pub system_text : String
  pub instruction : String
  pub user_text : String
  pub attempts : ℕ
  pub temperature : Option ℕ
  pub max_tokens : Option ℕ
  pub response_format : Json
  pub prompt_hash : String
  pub validate : Option (M → Bool)
  pub repair : Option (Option M → String → String)

-- The attempts after the first: `max(attempts, 1) - 1`
unfoldable pub spare : ℕ → ℕ
spare zero = 0
spare (suc n) = n

module _ {M : Type 0} (parse : String → Option M) (c : Settings M) where
  -- `_request`
  unfoldable pub request_of : String → Request
  request_of s = record {
    messages =
        record { role = system; content = c.system_text }
        ∷ record { role = user; content = s }
        ∷ [];
    temperature = c.temperature;
    max_tokens = c.max_tokens;
    stop = [];
    response_format = some c.response_format;
    headers = [];
    extra = [];
    prompt_hash = c.prompt_hash;
  }

  -- The text of the first attempt, and that of one with a note
  abbrev pub first_text : String
  first_text = c.instruction ++ ("\n\n" ++ c.user_text)

  abbrev pub noted : String → String
  noted note = first_text ++ ("\n\n" ++ note)

  unfoldable pub is_valid : M → Bool
  is_valid m = elim c.validate [ none ↦ true | some rule ↦ rule m ]

  -- The note for the next attempt
  unfoldable pub note_of : Option M → String → String
  note_of parsed reply = elim c.repair [
    | some repair ↦ repair parsed reply
    | none ↦ elim parsed [ none ↦ default_parse_repair | some m ↦ default_validation_repair ]
  ]

  -- What an attempt ends in: a model, or the text of the next attempt beside what is reported if
  -- there is none.
  unfoldable pub judge : Result Response → Outcome M × String
  unfolding is_valid note_of
  judge (err why) = (gave_up provider_error (some why), noted after_failure)
  judge (ok r) = elim (parse r.text) [
    | none ↦ (gave_up parse_error none, noted (note_of none r.text))
    | some m ↦
        if is_valid m
        then (got m, first_text)
        else (gave_up validation_error none, noted (note_of (some m) r.text))
  ]

  module _ {S : Type 0} (llm : Llm S) where
    -- The loop; the number is that of the attempts that are left after the next.
    unfoldable pub loop : ℕ → String → S → S × Outcome M
    unfolding request_of judge
    loop zero s st = let (st', reply) = llm.complete (request_of s) st in (st', (judge reply).0)
    loop (suc n) s st =
        let (st', reply) = llm.complete (request_of s) st in
        elim (judge reply).0 [
          | got m ↦ (st', got m)
          | gave_up why cause ↦ loop n (judge reply).1 st'
        ]

  -- The call, with or without a provider.
  unfoldable pub attempt : {S : Type 0} → Option (Llm S) → S → S × Outcome M
  unfolding loop spare
  attempt none st = (st, gave_up no_provider none)
  attempt (some llm) st = loop llm (spare c.attempts) first_text st
