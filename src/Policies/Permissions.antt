-- ===== src/Policies/Permissions.antt =====
-- reactifact/authz.py: `PermissionPolicy`. `class_name` is the name of a class of models.
pub mod Patterns
pub mod Granted
use Prim.Native.Char.{Char, code}
use text.Mathlib.TextBridge.{of_list}
use reactifact.Prelude.Texts.{chars}
use reactifact.Prelude.{
  String, Bool, true, false, Option, none, some, or_else, List, [], ◌∷◌, ◌==◌, ◌&&◌, ◌||◌, eqb,
  if◌then◌else◌, string_eq,
}
use reactifact.Prelude.Dict.{Dict, lookup}
use reactifact.Result.{Result, raise_if, denied}
use reactifact.Prelude.{not}
use reactifact.Model.{Class}
use reactifact.Runtime.{Verb, may_create, may_update, may_delete}

pub record Principal : Type 0 where
  pub id : String
  pub capabilities : List String

abbrev pub Text : Type 0
Text = List Char

abbrev pub is_colon : Char → Bool
is_colon c = eqb (code c) b':'

abbrev pub before_colon : Char → Option (Text × Text) → Option (Text × Text)
before_colon c none = none
before_colon c (some (a, r)) = some (c ∷ a, r)

-- `partition(":")`; `none` if there is no colon
unfoldable pub partition : Text → Option (Text × Text)
partition [] = none
partition (c ∷ cs) =
    let rest = partition cs in if is_colon c then some ([], cs) else before_colon c rest

-- `part in ("*", name)`
abbrev pub covers : String → String → Bool
covers part name = (part == "*") || (part == name)

-- `_permission_matches`
unfoldable pub permission_matches : String → String → String → Bool
unfolding partition
permission_matches pattern action resource =
    if pattern == "*" then true else elim (partition (chars pattern)) [
      | none ↦ pattern == action
      | some parts ↦ covers (of_list parts.0) action && covers (of_list parts.1) resource
    ]

pub record PermissionPolicy : Type 0 where
  pub grants : Dict String (List String)
  pub default_allow : Bool

unfoldable pub some_matches : List String → String → String → Bool
unfolding permission_matches
some_matches [] action resource = false
some_matches (p ∷ ps) action resource =
    let rest = some_matches ps action resource in
    if permission_matches p action resource then true else rest

unfoldable pub some_grants : Dict String (List String) → List String → String → String → Bool
unfolding some_matches lookup
some_grants grants [] action resource = false
some_grants grants (c ∷ cs) action resource =
    let rest = some_grants grants cs action resource in
    if some_matches (or_else (lookup c grants) []) action resource then true else rest

unfoldable pub authorize : PermissionPolicy → Option Principal → String → String → Bool
unfolding some_grants
authorize p none action resource = p.default_allow
authorize p (some who) action resource =
    if some_grants p.grants who.capabilities action resource then true else p.default_allow

unfoldable pub require : PermissionPolicy → Option Principal → String → String → Result (Unit {0})
unfolding authorize
require p who action resource = raise_if (not (authorize p who action resource)) denied
