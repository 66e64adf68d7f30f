-- ===== src/Llm.antt =====
-- reactifact/providers/contracts.py: the contract of the providers of language models, and the
-- wrappers around one. A provider is a function on the state of the world that it lives in, which
-- returns a response or raises. Temperatures are numbers of the smallest step.
pub mod Calls
pub mod Cache
pub mod Recording
pub mod Router
pub mod Metered
pub mod Structured
use reactifact.Prelude.{ℕ, String, Option, List}
use reactifact.Prelude.Dict.{Dict}
use reactifact.Json.{Json}
use reactifact.Result.{Result}

pub data Role : Type 0 where
  system user assistant tool : Role

pub record Message : Type 0 where
  pub role : Role
  pub content : String

pub record Request : Type 0 where
  pub messages : List Message
  pub temperature : Option ℕ
  pub max_tokens : Option ℕ
  pub stop : List String
  pub response_format : Option Json
  pub headers : Dict String String
  pub extra : Dict String Json
  pub prompt_hash : String

-- `raw: Any`, as far as `is_cache_hit` tells: nothing, the marker of a hit, or what a provider gave.
pub data Raw : Type 0 where
  no_raw cache_marker : Raw
  provider_raw : String → Raw

pub record Response : Type 0 where
  pub text : String
  pub raw : Raw
  pub finish_reason : Option String
  pub usage : Dict String ℕ

pub record Chunk : Type 0 where
  pub text : String
  pub finish_reason : Option String
  pub usage : Option (Dict String ℕ)

-- `LLMProvider`, with the attribute `model` that most providers have.
pub record Llm (S : Type 0) : Type 0 where
  pub model : String
  pub complete : Request → S → S × Result Response
