-- ===== src/Tests/Calls.antt =====
-- The theorems on calls of models, at a provider that answers every request alike.
use reactifact.Prelude.{
  ap, ℕ, String, ◌≡◌, refl, Bool, true, false, Option, none, some, List, [], ◌∷◌, map, arith,
  string_eq,
}
use reactifact.Prelude.Sets.{IsOnce}
use reactifact.Prelude.Dict.{lookup}
use reactifact.Json.{Json, null}
use reactifact.Result.{Result, ok, err, value_error, Error}
use reactifact.Budget.{no_usage}
use reactifact.Quota.{Quota, Store, expired, window}
use reactifact.Llm.{user, Request, no_raw, Response, Llm}
use reactifact.Llm.Calls.{Call, Behaviour, observed, run}
use reactifact.Llm.Cache.{caching_llm, is_cache_hit}
use reactifact.Llm.Cache.Laws.{stored_of, answered, AllBacked, run-caching_llm}
use reactifact.Llm.Recording.Lines.{Text}
use reactifact.Llm.Recording.{recording_llm, replaying_llm, entry_of, entry_at}
use reactifact.Llm.Recording.Laws.{replayed, IsSteady, IsLegible, run-replaying_llm}
use reactifact.Llm.Router.{router_llm}
use reactifact.Llm.Router.Laws.{Decides, router_llm_lem}
use reactifact.Llm.Metered.{budget_llm, quota_llm}
use reactifact.Llm.Metered.Totals.{Counts, IsUnmarked, run-budget_llm}
use reactifact.Llm.Metered.Windows.{IsBilled, quota_llm_lem}
use reactifact.Llm.Structured.{Settings, gave_up, no_provider, spare, attempt}
use reactifact.Llm.Structured.Attempts.{Ends, attempt-Ends}

abbrev one_digest : Json → String
one_digest v = "k"

abbrev ask : Request
ask = record {
  messages = record { role = user; content = "hi" } ∷ [];
  temperature = none;
  max_tokens = none;
  stop = [];
  response_format = none;
  headers = [];
  extra = [];
  prompt_hash = "";
}

abbrev answer : Response
answer = record {
  text = "hello";
  raw = no_raw;
  finish_reason = some "stop";
  usage = ("prompt_tokens", 3) ∷ ("completion_tokens", 5) ∷ [];
}

abbrev same_answer : Behaviour
same_answer calls q = ok answer

abbrev twice : List Request
twice = ask ∷ ask ∷ []

run-caching_llm_example :
    ((run (caching_llm one_digest one_digest (observed "m" same_answer)) twice ([], [])).0.0
      ≡ stored_of one_digest one_digest "m"
          (run (caching_llm one_digest one_digest (observed "m" same_answer)) twice ([], [])).0.1)
    × IsOnce (
        answered one_digest one_digest "m"
          (run (caching_llm one_digest one_digest (observed "m" same_answer)) twice ([], [])).0.1)
    × AllBacked one_digest one_digest "m"
        (run (caching_llm one_digest one_digest (observed "m" same_answer)) twice ([], [])).0
        twice
        (run (caching_llm one_digest one_digest (observed "m" same_answer)) twice ([], [])).1
run-caching_llm_example = run-caching_llm one_digest one_digest "m" same_answer twice

-- A writer and a reader of the one entry that a recording of the answer holds.
abbrev one_line : Json → Text
one_line v = "{" ∷ "}" ∷ []

abbrev one_entry : Text → Result Json
one_entry line = ok (entry_of one_digest "m" ask answer)

same_answer-IsSteady : IsSteady one_digest one_line one_entry "m" same_answer
same_answer-IsSteady cs cs' q p e = refl

same_answer-IsLegible : IsLegible one_digest one_line one_entry "m" same_answer
unfolding entry_of
same_answer-IsLegible cs q r e =
    ((refl, (refl, tt)), ap (λ x. ok (entry_at "m" "k" x)) (ok-injective e))
  where
    ok-injective : ok answer ≡ ok r → answer ≡ r
    ok-injective same = cc same

run-replaying_llm_example :
    (run
      (replaying_llm one_digest one_entry "m")
      twice
      (run (recording_llm one_digest one_line "m" (observed "m" same_answer)) twice ([], [])).0.0).1
    ≡ map replayed
        (run (recording_llm one_digest one_line "m" (observed "m" same_answer)) twice ([], [])).1
run-replaying_llm_example =
    run-replaying_llm one_digest one_line one_entry "m" same_answer same_answer-IsLegible twice
      same_answer-IsSteady

same_answer-IsUnmarked : IsUnmarked same_answer
unfolding is_cache_hit
same_answer-IsUnmarked cs q r e = ground (arith, e)

run-budget_llm_example :
    Counts none "m"
      (run
        (budget_llm none (caching_llm one_digest one_digest (observed "m" same_answer)))
        twice
        (no_usage, ([], []))).0.0
      (run
        (budget_llm none (caching_llm one_digest one_digest (observed "m" same_answer)))
        twice
        (no_usage, ([], []))).0.1.1
run-budget_llm_example =
    run-budget_llm none one_digest one_digest "m" same_answer twice same_answer-IsUnmarked

abbrev daily : Quota
daily = record {
  max_tokens = some 100;
  max_cost = none;
  max_calls = none;
  window_seconds = some 60;
}

abbrev at_seven : List Call → ℕ
at_seven calls = 7

still_open : expired daily 8 (window daily "u" 7 []).1 ≡ false
unfolding window expired lookup
still_open = refl

abbrev other_user : String
other_user = "v"

others_apart : string_eq.beq "u" "v" ≡ false
others_apart = refl

abbrev charged_call : (Store × List Call) × Result Response
charged_call = (quota_llm daily "u" none at_seven (observed "m" same_answer)).complete ask ([], [])

quota_llm_lem_example :
    (charged_call.1 ≡ ok answer)
    × IsBilled daily "u" none "m" 7 8 [] charged_call.0.0 (ok answer)
    × (lookup other_user charged_call.0.0 ≡ lookup other_user [])
quota_llm_lem_example =
    quota_llm_lem daily "u" other_user none at_seven (observed "m" same_answer) ask [] [] 8
      still_open others_apart

abbrev always : Error → Bool
always why = true

router_llm_lem_example :
    ((llm : Llm (List Call)) × (router_llm always (observed "m" same_answer ∷ []) ≡ ok llm)
      × Decides always ask (observed "m" same_answer ∷ []) [] (llm.complete ask []))
    × (router_llm {S = List Call} always [] ≡ err value_error)
router_llm_lem_example = router_llm_lem always (observed "m" same_answer) [] ask []

abbrev read_any : String → Option String
read_any s = some s

abbrev never : String → Bool
never m = false

abbrev thrice : Settings String
thrice = record {
  system_text = "";
  instruction = "";
  user_text = "";
  attempts = 3;
  temperature = none;
  max_tokens = none;
  response_format = null;
  prompt_hash = "";
  validate = some never;
  repair = none;
}

attempt-Ends_example :
    Ends read_any thrice 3
      (attempt read_any thrice (some (observed "m" same_answer)) []).0
      (attempt read_any thrice (some (observed "m" same_answer)) []).1
    × ((calls : List Call)
        → attempt read_any thrice {S = List Call} none calls ≡ (calls, gave_up no_provider none))
unfolding spare
attempt-Ends_example = attempt-Ends read_any thrice "m" same_answer
