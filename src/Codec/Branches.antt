-- ===== src/Codec/Branches.antt =====
-- A context and its base are read back as they were written: `to_dict` and `from_dict` of
-- `Context`, whose caches are computed anew.
use reactifact.Prelude.{
  ℕ, suc, ◌+◌, String, ◌≡◌, refl, Option, none, some, List, [], ◌∷◌, string_eq, ◌∙◌, ap, length,
}
use mathlib.Core.Option
use reactifact.Prelude.Dict.{Dict}
use reactifact.Result.{ok, ◌>>=◌}
use reactifact.CommitLog.Chain.{IsValid}
use reactifact.Context.{Context, empty_context, Event, recompute_stale, reindex_by_type}
use reactifact.Branching.{Branch}
use reactifact.Json.{Json, null}
use reactifact.Json.Lists.{
  optional_text_reads_back, read_items-items_of, read_fields-fields_of, ReadsBack-all,
}
use reactifact.Codec.Schemas.{Schema, IsFaithful}
use reactifact.Codec.Commits.{commit_to_dict, commit_from_dict}
use reactifact.Codec.Artifacts.{artifact_to_dict, artifact_from_dict, renumber}
use reactifact.Codec.Logs.{graph_to_dict, log_to_dict}
use reactifact.Codec.Contexts.{
  migrate_from, migrate_context_payload, context_fields, context_to_dict, read_context, read_base,
  base_to_dict, branch_from_dict, context_from_dict,
}
use reactifact.Codec.Objects.{commit_reads_back}
use reactifact.Codec.Roundtrip.{
  IsEdgeSet, set_edges_lem, graph_reads_back, AllStorable, IsStorableBaseline, log_reads_back,
  artifacts_read_back, baseline_reads_back, unnumbered, events_read_back,
}

pub renumber-unnumbered : (i : ℕ) (es : List Event) → renumber i (unnumbered es) ≡ renumber i es
unfolding renumber
renumber-unnumbered i [] = refl
renumber-unnumbered i (e ∷ es) =
    ap (λ r. record e { ident = i } ∷ r) (renumber-unnumbered (i + 1) es)

pub length-unnumbered : (es : List Event) → length (unnumbered es) ≡ length es
length-unnumbered [] = refl
length-unnumbered (e ∷ es) = ap suc (length-unnumbered es)

-- What a context keeps across a process: all but the caches, which are computed from the rest, and
-- the identities of its events.
abbrev pub reloaded : Context → Context
reloaded ctx = reindex_by_type (
    recompute_stale (record empty_context {
      artifacts = ctx.artifacts;
      relations = ctx.relations;
      log = ctx.log;
      events = renumber 0 ctx.events;
      next_event = length ctx.events;
    }))

-- The context's log is a chain, its artifacts have kept their classes, and its edges and those of
-- its baseline are sets.
pub record IsStorable (ctx : Context) : Type 0 where
  pub chained : IsValid ctx.log
  pub uniform : AllStorable ctx.artifacts
  pub edges : IsEdgeSet ctx.relations
  pub baseline : IsStorableBaseline ctx.log.baseline ctx.log.baseline_relations

-- The base, when there is one, can be stored too.
abbrev pub IsStorableBase : Option Context → Type 0
IsStorableBase none = Unit
IsStorableBase (some base) = IsStorable base

abbrev pub reloaded_branch : Branch → Branch
reloaded_branch b = record {
  context = reloaded b.context;
  base = Option.map reloaded b.base;
  fork_name = b.fork_name;
}

module _ (s : Schema) (f : IsFaithful s) where
  fields_read_back :
      (fork_name : String) (base : Json) (ctx : Context)
      → IsStorable ctx
      → read_context s (context_fields s fork_name base ctx) ≡ ok (reloaded ctx)
  unfolding read_context context_fields log_to_dict graph_to_dict
  fields_read_back fork_name base ctx h = rw (
    read_fields-fields_of (artifact_to_dict s) (artifact_from_dict s) ctx.artifacts
        (artifacts_read_back s f ctx.artifacts h.uniform),
    graph_reads_back ctx.relations,
    read_items-items_of (commit_to_dict s) (commit_from_dict s) ctx.log.commits (
        ReadsBack-all (commit_to_dict s) (commit_from_dict s) (commit_reads_back s f)
          ctx.log.commits),
    optional_text_reads_back ctx.log.head_id,
    baseline_reads_back s f ctx.log h.chained h.baseline,
    events_read_back s f ctx.events,
    set_edges_lem ctx.relations h.edges,
    log_reads_back s ctx.log h.chained,
    renumber-unnumbered 0 ctx.events,
    length-unnumbered ctx.events,
  )

  unmigrated :
      (migrations : Dict ℕ (Json → Json)) (fork_name : String) (base : Json) (ctx : Context)
      → migrate_context_payload migrations (context_fields s fork_name base ctx)
        ≡ ok (context_fields s fork_name base ctx)
  unfolding migrate_context_payload migrate_from context_fields
  unmigrated migrations fork_name base ctx = refl

  -- The base's payload, and what is read from it.
  base_reads_back :
      (migrations : Dict ℕ (Json → Json)) (base : Option Context)
      → IsStorableBase base
      → read_base
          (λ p. migrate_context_payload migrations p >>= read_context s)
          (base_to_dict s base)
        ≡ ok (Option.map reloaded base)
  unfolding context_fields
  base_reads_back migrations none h = refl
  base_reads_back migrations (some base) h =
      ap (λ p. p >>= read_context s >>= λ c. ok (some c)) (unmigrated migrations "" null base)
      ∙ ap (λ c. c >>= λ c. ok (some c)) (fields_read_back "" null base h)

  -- A branch, whose context and base can be stored, is read back with its caches computed anew,
  -- whatever the migrations are: the payload is in the current format.
  pub context_reads_back :
      (migrations : Dict ℕ (Json → Json)) (b : Branch)
      → IsStorable b.context
      → IsStorableBase b.base
      → context_from_dict s migrations (context_to_dict s b) ≡ ok (reloaded_branch b)
  unfolding context_from_dict context_to_dict branch_from_dict context_fields
  context_reads_back migrations b h hb =
      ap (λ p. p >>= branch_from_dict s migrations)
        (unmigrated migrations b.fork_name (base_to_dict s b.base) b.context)
      ∙ rw (
        fields_read_back b.fork_name (base_to_dict s b.base) b.context h,
        base_reads_back migrations b.base hb,
      )
