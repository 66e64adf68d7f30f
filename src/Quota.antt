-- ===== src/Quota.antt =====
-- reactifact/quota.py: usage of one key across turns, within a window of time. The store is the
-- in-memory one; costs and times are numbers of the smallest unit.
pub mod Accounting
use reactifact.Prelude.{
  ℕ, ◌+◌, ◌-◌, ◌≤◌, String, Bool, true, false, ◌&&◌, Option, none, some, List, [], ◌∷◌, leb,
  if◌then◌else◌, string_eq,
}
use reactifact.Prelude.Dict.{Dict, lookup, insert}
use reactifact.Budget.{reached}

pub record Quota : Type 0 where
  pub max_tokens : Option ℕ
  pub max_cost : Option ℕ
  pub max_calls : Option ℕ
  pub window_seconds : Option ℕ

pub record Usage : Type 0 where
  pub tokens : ℕ
  pub cost : ℕ
  pub calls : ℕ

abbrev pub no_usage : Usage
no_usage = record { tokens = 0; cost = 0; calls = 0 }

pub record Window : Type 0 where
  pub started : ℕ
  pub usage : Usage

pub data Limit : Type 0 where
  max_tokens max_cost max_calls : Limit

abbrev pub Store : Type 0
Store = Dict String Window

-- `now - window.started >= window_seconds`; a clock that runs back makes the difference negative,
-- so the test is made without subtraction.
unfoldable pub expired : Quota → ℕ → Window → Bool
expired q now w = elim q.window_seconds [ none ↦ false | some s ↦ leb (w.started + s) now ]

abbrev fresh_window : ℕ → Window
fresh_window now = record { started = now; usage = no_usage }

-- `_window`: the window that is open, which is a new one if there is none or it has expired.
unfoldable pub window : Quota → String → ℕ → Store → Store × Window
unfolding expired
window q key now st = elim (lookup key st) [
  | none ↦ (insert key (fresh_window now) st, fresh_window now)
  | some w ↦
      if expired q now w then (insert key (fresh_window now) st, fresh_window now) else (st, w)
]

unfoldable pub over_limit : Quota → Usage → Option Limit
over_limit q u =
    if reached q.max_tokens u.tokens
    then some Limit.max_tokens
    else if reached q.max_cost u.cost
    then some Limit.max_cost
    else if reached q.max_calls u.calls
    then some Limit.max_calls
    else none

-- `exceeded`
unfoldable pub exceeded : Quota → String → ℕ → Store → Store × Option Limit
unfolding window over_limit
exceeded q key now st = let (st', w) = window q key now st in (st', over_limit q w.usage)

unfoldable pub add_usage : ℕ → ℕ → ℕ → Usage → Usage
add_usage tokens cost calls u = record {
  tokens = u.tokens + tokens;
  cost = u.cost + cost;
  calls = u.calls + calls;
}

-- `record`: the usage of the window object in the store is added to in place.
unfoldable pub record_usage : Quota → String → ℕ → ℕ → ℕ → ℕ → Store → Store
unfolding window add_usage
record_usage q key now tokens cost calls st =
    let (st', w) = window q key now st in
    insert key (record w { usage = add_usage tokens cost calls w.usage }) st'

-- `reset`
unfoldable pub reset : Option String → ℕ → Store → Store
reset none now st = []
reset (some key) now st = insert key (fresh_window now) st
