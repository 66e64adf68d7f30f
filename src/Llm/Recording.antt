-- ===== src/Llm/Recording.antt =====
-- reactifact/replay.py: `ReplayLLM`. The recording is the text of its file. `digest` is the sha256 of
-- the canonical text of a value; `dumps` and `loads` are those of the module `json`, where `dumps`
-- leaves characters beyond ASCII as they are.
pub mod Lines
pub mod Laws
use reactifact.Prelude.{ℕ, String, Option, none, some, List, [], ◌∷◌, ◌++◌, ◌==◌, string_eq}
use reactifact.Prelude.Dict.{Dict, lookup, insert}
use reactifact.Json.{
  Json, null, num, text, arr, obj, end, field, optional_num, optional_text, item, item_or, as_num,
  as_dict, text_at, optional_text_at, fields_of,
}
use reactifact.Result.{Result, ok, err, replay_miss, ◌>>=◌}
use reactifact.Llm.{Request, Response, no_raw, Llm}
use reactifact.Llm.Cache.{message_items, json_or_null}
use reactifact.Llm.Recording.Lines.{Text, newline, splitlines}

-- The dictionary over which `_request_key` makes its hash.
unfoldable pub key_payload : String → Request → Json
unfolding message_items
key_payload model request = obj (
    field "model" (text model) (
      field "temperature" (optional_num request.temperature) (
        field "response_format" (json_or_null request.response_format)
          (field "messages" (arr (message_items request.messages)) end))))

-- The dictionary that `_append` writes.
unfoldable pub entry_at : String → String → Response → Json
unfolding fields_of
entry_at model key r = obj (
    field "key" (text key) (
      field "model" (text model) (
        field "response"
          (obj (
            field "text" (text r.text) (field "finish_reason" (optional_text r.finish_reason) end)))
          (field "usage" (obj (fields_of num r.usage)) end))))

-- `dict(entry.get("usage") or {})`
unfoldable pub usage_of : Json → Result (Dict String ℕ)
usage_of null = ok []
usage_of v = as_dict as_num v

-- What `_replay` makes of the entry that it finds.
unfoldable pub respond : Json → Result Response
unfolding item item_or text_at optional_text_at usage_of
respond entry = do
  response ← item "response" entry
  said ← text_at "text" response
  reason ← optional_text_at "finish_reason" response
  counts ← item_or null "usage" entry
  usage ← usage_of counts
  ok (record { text = said; raw = no_raw; finish_reason = reason; usage = usage })

-- The loop of `_load`: of two entries under one key the later counts.
unfoldable pub load_from :
    (Text → Result Json) → List Text → Dict String Json → Result (Dict String Json)
unfolding text_at insert
load_from loads [] cache = ok cache
load_from loads (line ∷ lines) cache = loads line >>= λ entry.
    text_at "key" entry >>= λ key. load_from loads lines (insert key entry cache)

unfoldable pub load : (Text → Result Json) → Text → Result (Dict String Json)
unfolding load_from splitlines
load loads file = load_from loads (splitlines file) []

module _ (digest : Json → String) where
  unfoldable pub request_key : String → Request → String
  unfolding key_payload
  request_key model request = digest (key_payload model request)

  unfoldable pub entry_of : String → Request → Response → Json
  unfolding request_key entry_at
  entry_of model q r = entry_at model (request_key model q) r

  module _ (dumps : Json → Text) where
    -- `_append`, for a call that returned
    unfoldable pub append : String → Request → Result Response → Text → Text
    unfolding entry_of
    append model q (err why) file = file
    append model q (ok r) file = file ++ (dumps (entry_of model q r) ++ newline ∷ [])

    -- The mode `record`
    module _ {S : Type 0} where
      unfoldable pub recording_llm : String → Llm S → Llm (Text × S)
      unfolding append
      recording_llm model inner = record {
        model = model;
        complete = λ q (file, s).
            let (s', reply) = inner.complete q s in ((append model q reply file, s'), reply);
      }

  module _ (loads : Text → Result Json) where
    -- `_replay`
    unfoldable pub replay : String → Text → Request → Result Response
    unfolding request_key load respond lookup
    replay model file q = load loads file >>= λ cache. elim (lookup (request_key model q) cache) [
      | none ↦ err replay_miss
      | some entry ↦ respond entry
    ]

    -- The mode `replay`, on a recording that nobody writes to.
    unfoldable pub replaying_llm : String → Llm Text
    unfolding replay
    replaying_llm model = record { model = model; complete = λ q file. (file, replay model file q) }
