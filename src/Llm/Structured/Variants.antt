-- ===== src/Llm/Structured/Variants.antt =====
-- The entry points of reactifact/structured.py. `loads` is `json.loads`, and `schema` the text of
-- the JSON schema.
use Prim.Native.String.{◌++◌}
use reactifact.Prelude.{String, true, Option, none, some, ◌==◌, if◌then◌else◌, string_eq}
use reactifact.Json.{Json, text, obj, flag, end, field}
use reactifact.Result.{ok, err}
use reactifact.Llm.{Request, Response, Llm}
use reactifact.Llm.Structured.{Settings, Outcome, parse_structured, attempt}
use reactifact.Llm.Structured.Extract.{extract_json}

abbrev instruction_of : String → String
instruction_of schema = "Reply with a single JSON object matching this schema:\n" ++ schema

-- `structured_llm`, whose format and instruction are its own
unfoldable pub structured_llm :
    {M : Type 0}
    → (String → Option M)
    → (String → Option M)
    → String
    → Settings M
    → {S : Type 0} → Option (Llm S)
    → S
    → S × Outcome M
unfolding attempt parse_structured
structured_llm validate_json validate_loaded schema c llm st =
    attempt (parse_structured validate_json validate_loaded)
      (record c {
        instruction = instruction_of schema;
        response_format = obj (field "type" (text "json_object") end);
      })
      llm st

-- One candidate of `_parse_raw_json`: only an object counts.
unfoldable pub raw_candidate : (String → Option Json) → String → Option Json
raw_candidate loads s =
    if s == ""
    then none
    else elim (loads s) [ none ↦ none | some v ↦ elim v [ obj fs ↦ some (obj fs) | _ ↦ none ] ]

unfoldable pub parse_raw_json : (String → Option Json) → String → Option Json
unfolding raw_candidate extract_json
parse_raw_json loads s = elim (raw_candidate loads s) [
  | some v ↦ some v
  | none ↦ elim (extract_json s) [ none ↦ none | some t ↦ raw_candidate loads t ]
]

unfoldable pub json_schema_llm :
    (String → Option Json)
    → (Json → String)
    → Json
    → String
    → Settings Json
    → {S : Type 0} → Option (Llm S)
    → S
    → S × Outcome Json
unfolding attempt parse_raw_json
json_schema_llm loads dumps schema name c llm st =
    attempt (parse_raw_json loads)
      (record c {
        instruction = instruction_of (dumps schema);
        response_format = obj (
            field "type" (text "json_schema") (
              field "json_schema"
                (obj (
                  field "name" (text name)
                    (field "schema" schema (field "strict" (flag true) end))))
                end));
      })
      llm st

-- `chat_complete_full` and `chat_complete`: one call, and `None` where it raises.
unfoldable pub chat_complete_full :
    {S : Type 0} → Option (Llm S) → Request → S → S × Option Response
chat_complete_full none q st = (st, none)
chat_complete_full (some llm) q st =
    let (st', reply) = llm.complete q st in (st', elim reply [ ok r ↦ some r | err why ↦ none ])

unfoldable pub chat_complete : {S : Type 0} → Option (Llm S) → Request → S → S × Option String
unfolding chat_complete_full
chat_complete llm q st =
    let (st', response) = chat_complete_full llm q st in
    (st', elim response [ some r ↦ some r.text | none ↦ none ])
