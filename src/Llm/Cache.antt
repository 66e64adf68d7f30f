-- ===== src/Llm/Cache.antt =====
-- reactifact/cache.py: `CachingLLM` over the cache in memory. `digest`, the sha256 of the canonical
-- text of a JSON value, and `str`, Python's text of a value that is no text, are parameters.
pub mod Laws
use reactifact.Prelude.{
  ℕ, String, Bool, true, false, Option, none, some, List, [], ◌∷◌, ◌==◌, if◌then◌else◌, string_eq,
  nat_eq,
}
use reactifact.Prelude.Dict.{Dict, lookup, insert}
use reactifact.Json.{
  Json, Items, Fields, null, flag, num, text, arr, obj, nil, cons, end, field, optional_num,
}
use reactifact.Result.{Result, ok, err}
use reactifact.Llm.{
  Role, system, user, assistant, tool, Message, Request, Raw, cache_marker, Response, Llm,
}

abbrev pub is_marker : Raw → Bool
is_marker cache_marker = true
is_marker _ = false

unfoldable pub is_cache_hit : Response → Bool
is_cache_hit response = is_marker response.raw

abbrev pub role_text : Role → String
role_text system = "system"
role_text user = "user"
role_text assistant = "assistant"
role_text tool = "tool"

unfoldable pub message_items : List Message → Items
message_items [] = nil
message_items (m ∷ ms) =
    cons (obj (field "role" (text (role_text m.role)) (field "content" (text m.content) end)))
      (message_items ms)

abbrev pub text_items : List String → Items
text_items [] = nil
text_items (s ∷ ss) = cons (text s) (text_items ss)

abbrev pub extra_fields : Dict String Json → Fields
extra_fields [] = end
extra_fields ((k, v) ∷ d) = field k v (extra_fields d)

abbrev pub json_or_null : Option Json → Json
json_or_null none = null
json_or_null (some v) = v

-- The dictionary over which `cache_key` makes its hash.
unfoldable pub key_payload : String → Request → Json
unfolding message_items
key_payload model request = obj (
    field "model" (text model) (
      field "temperature" (optional_num request.temperature) (
        field "max_tokens" (optional_num request.max_tokens) (
          field "stop" (arr (text_items request.stop)) (
            field "response_format" (json_or_null request.response_format) (
              field "extra" (obj (extra_fields request.extra))
                (field "messages" (arr (message_items request.messages)) end)))))))

pub record Stored : Type 0 where
  pub text : String
  pub finish_reason : Option String
  pub usage : Dict String ℕ

unfoldable pub to_stored : Response → Stored
to_stored r = record { text = r.text; finish_reason = r.finish_reason; usage = r.usage }

unfoldable pub from_stored : Stored → Response
from_stored s = record {
  text = s.text;
  raw = cache_marker;
  finish_reason = s.finish_reason;
  usage = s.usage;
}

-- `InMemoryCache`
abbrev pub Store : Type 0
Store = Dict String Stored

-- The end of `complete` when the key is not in the cache.
unfoldable pub keep_reply :
    {S : Type 0} → String → Store → S → Result Response → (Store × S) × Result Response
unfolding to_stored insert
keep_reply key cache s (err why) = ((cache, s), err why)
keep_reply key cache s (ok response) = ((insert key (to_stored response) cache, s), ok response)

module _ (digest : Json → String) (str : Json → String) where
  unfoldable pub cache_key : String → Request → String
  unfolding key_payload
  cache_key model request = digest (key_payload model request)

  -- `str(override or …)`: an empty text, a zero, `False` and `None` give way.
  unfoldable pub override_or : String → Option Json → String
  override_or model none = model
  override_or model (some null) = model
  override_or model (some (flag b)) = if b then str (flag b) else model
  override_or model (some (num n)) = if n == 0 then model else str (num n)
  override_or model (some (text s)) = if s == "" then model else s
  override_or model (some (arr nil)) = model
  override_or model (some (arr (cons v vs))) = str (arr (cons v vs))
  override_or model (some (obj end)) = model
  override_or model (some (obj (field k v fs))) = str (obj (field k v fs))

  -- `_model`
  unfoldable pub model_of : String → Request → String
  unfolding override_or lookup
  model_of model request = override_or model (lookup "model" request.extra)

  unfoldable pub key_of : String → Request → String
  unfolding cache_key model_of
  key_of model request = cache_key (model_of model request) request

  module _ {S : Type 0} where
    unfoldable pub complete : Llm S → Request → Store × S → (Store × S) × Result Response
    unfolding key_of keep_reply from_stored lookup
    complete inner request (cache, s) =
        let key = key_of inner.model request in
        elim (lookup key cache) [
          | none ↦ let (s', reply) = inner.complete request s in keep_reply key cache s' reply
          | some stored ↦ ((cache, s), ok (from_stored stored))
        ]

    unfoldable pub caching_llm : Llm S → Llm (Store × S)
    unfolding complete
    caching_llm inner = record { model = inner.model; complete = complete inner }
