-- ===== src/Consume/Correlated.antt =====
-- `CorrelatedConsume` of reactifact/consume.py: artifacts of several classes that share a key, where
-- artifacts of other classes with that key block the group. `JoinConsume` and `AbsentConsume` are
-- calls of it.
use reactifact.Prelude.{
  Bool, true, false, not, ◌&&◌, ◌||◌, none, some, List, [], ◌∷◌, ◌++◌, Eq, ◌==◌, or_else, length,
  if◌then◌else◌, nat_eq,
}
use reactifact.Prelude.Dict.{Dict, lookup, insert, values, has}
use reactifact.Model.{Model, Class, class_eq}
use reactifact.Artifact.{Artifact}
use reactifact.Context.{Context, EventType, list_artifacts}
use reactifact.Trigger.{Trigger}

pub record CorrelatedConsume (K : Type 0) : Type 0 where
  pub key : Model → K
  pub require : List Class
  pub require_conditions : Dict Class (Model → Bool)
  pub forbid : List Class
  pub forbid_conditions : Dict Class (Model → Bool)
  pub event_types : List EventType
  pub wakes : Bool
  pub debounce : Bool

abbrev pub Group : Type 0
Group = Dict Class Artifact

-- A condition that is not given holds.
abbrev pub passes : Dict Class (Model → Bool) → Class → Artifact → Bool
passes conditions c a = elim (lookup c conditions) [ none ↦ true | some p ↦ p a.data_ ]

module _ {K : Type 0} ⦃k_eq : Eq K⦄ (issubclass : Class → Class → Bool)
    (c : CorrelatedConsume K) where
  -- `groups.setdefault(key, {})[part_type] = artifact`
  unfoldable pub put_part : Class → Artifact → Dict K Group → Dict K Group
  put_part part a groups =
      insert (c.key a.data_) (insert part a (or_else (lookup (c.key a.data_) groups) [])) groups

  unfoldable pub put_parts : Class → List Artifact → Dict K Group → Dict K Group
  unfolding put_part
  put_parts part [] groups = groups
  put_parts part (a ∷ as') groups =
      let next = put_parts part as' (put_part part a groups) in
      let same = put_parts part as' groups in
      if passes c.require_conditions part a then next else same

  unfoldable pub group_parts : List Class → Context → Dict K Group → Dict K Group
  unfolding put_parts list_artifacts
  group_parts [] ctx groups = groups
  group_parts (part ∷ parts) ctx groups =
      group_parts parts ctx (put_parts part (list_artifacts issubclass (some part) ctx) groups)

  -- `_groups`
  abbrev pub groups_of : Context → Dict K Group
  groups_of ctx = group_parts c.require ctx []

  unfoldable pub blocks : K → Class → List Artifact → Bool
  blocks k forbidden [] = false
  blocks k forbidden (a ∷ as') =
      let rest = blocks k forbidden as' in
      if (c.key a.data_ == k) && passes c.forbid_conditions forbidden a then true else rest

  unfoldable pub blocked_by : List Class → K → Context → Bool
  unfolding blocks list_artifacts
  blocked_by [] k ctx = false
  blocked_by (forbidden ∷ rest) k ctx =
      blocks k forbidden (list_artifacts issubclass (some forbidden) ctx) || blocked_by rest k ctx

  -- `_blocked`
  abbrev pub is_blocked : K → Context → Bool
  is_blocked k ctx = blocked_by c.forbid k ctx

  abbrev pub all_parts : List Class → Group → Bool
  all_parts [] group = true
  all_parts (part ∷ parts) group = has part group && all_parts parts group

  unfoldable pub group_ready : K → Context → Bool
  unfolding group_parts blocked_by
  group_ready k ctx =
      all_parts c.require (or_else (lookup k (groups_of ctx)) []) && not (is_blocked k ctx)

  -- The condition of the trigger of one class.
  abbrev pub part_ready : Class → Artifact → Context → Bool
  part_ready part a ctx = passes c.require_conditions part a && group_ready (c.key a.data_) ctx

  abbrev pub part_triggers : Class → List EventType → List Trigger
  part_triggers part [] = []
  part_triggers part (event_type ∷ es) =
      record {
        event_type = event_type;
        artifact_type = some part;
        condition = none;
        context_condition = some (part_ready part);
        debounce = c.debounce;
        include_subclasses = false;
      }
      ∷ part_triggers part es

  abbrev pub triggers_of : List Class → List Trigger
  triggers_of [] = []
  triggers_of (part ∷ parts) = part_triggers part c.event_types ++ triggers_of parts

  unfoldable pub to_triggers : List Trigger
  unfolding group_ready
  to_triggers = if not c.wakes then [] else triggers_of c.require

  unfoldable pub collect_groups : Context → Dict K Group → List Artifact
  unfolding blocked_by
  collect_groups ctx [] = []
  collect_groups ctx ((k, group) ∷ groups) =
      let rest = collect_groups ctx groups in
      if (length group == length c.require) && not (is_blocked k ctx)
      then values group ++ rest
      else rest

  unfoldable pub collect : Context → List Artifact
  unfolding collect_groups group_parts
  collect ctx = collect_groups ctx (groups_of ctx)
