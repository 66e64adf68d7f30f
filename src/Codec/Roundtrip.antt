-- ===== src/Codec/Roundtrip.antt =====
-- A context is read back as it was written, with its caches computed anew.
use reactifact.Prelude.{
  ℕ, String, ◌≡◌, refl, true, false, Option, none, some, List, [], ◌∷◌, ◌++◌, arith, string_eq, ◌∙◌,
  ap, sym,
}
use mathlib.Core.List.{append_assoc, append-nil}
use reactifact.Prelude.Dict.{Dict}
use reactifact.Prelude.Sets.{contains, add, contains-append}
use reactifact.Result.{ok}
use reactifact.Artifact.{Artifact}
use reactifact.Operations.{Relation, relation_eq}
use reactifact.RelationGraph.{Graph}
use reactifact.Commit.{Commit}
use reactifact.CommitLog.{CommitLog, empty_log, rebuild_indices}
use reactifact.CommitLog.Chain.{IsValid, last_id}
use reactifact.Context.{Event}
use reactifact.Json.{items_of, read_items}
use reactifact.Json.Lists.{
  optional_text_reads_back, ReadsBackValues, ReadsBack-all, read_items-items_of,
  read_fields-fields_of,
}
use reactifact.Codec.Schemas.{Schema, IsFaithful}
use reactifact.Codec.Operations.{relation_to_dict, relation_from_dict}
use reactifact.Codec.Artifacts.{
  artifact_to_dict, artifact_from_dict, event_to_dict, event_from_dict,
}
use reactifact.Codec.Logs.{
  set_edges, Baseline, head_of, baseline_to_dict, read_baseline, log_from_dict,
}
use reactifact.Codec.Objects.{
  IsStorableArtifact, relation_reads_back, artifact_reads_back, event_reads_back,
}

-- No edge stands twice, as in every dict of edges.
abbrev pub IsEdgeSet : Graph → Type 0
IsEdgeSet [] = Unit
IsEdgeSet (r ∷ g) = (contains r g ≡ false) × IsEdgeSet g

add_new : (r : Relation) (g : Graph) → contains r g ≡ false → add r g ≡ g ++ r ∷ []
unfolding add contains
add_new r [] out = refl
add_new r (x ∷ g) out = ground (arith, add_new r g, relation_eq.beq_iff x r, out)

set_edges_new :
    (rs g : Graph)
    → IsEdgeSet rs
    → ((r : Relation) → contains r rs ≡ true → contains r g ≡ false)
    → set_edges rs g ≡ g ++ rs
unfolding set_edges contains
set_edges_new [] g h apart = sym (append-nil g)
set_edges_new (r ∷ rs) g h apart =
    ap (set_edges rs) (add_new r g (apart r (ground (arith, relation_eq.beq_iff r r))))
    ∙ set_edges_new rs (g ++ r ∷ []) h.1 (λ x m.
      ground (arith, contains-append x g (r ∷ []), apart x, relation_eq.beq_iff r x, h.0, m))
    ∙ append_assoc g (r ∷ []) rs

pub set_edges_lem : (g : Graph) → IsEdgeSet g → set_edges g [] ≡ g
unfolding contains
set_edges_lem g h = set_edges_new g [] h (λ r m. refl)

pub graph_reads_back :
    (g : Graph) → read_items relation_from_dict (items_of relation_to_dict g) ≡ ok g
graph_reads_back g =
    read_items-items_of relation_to_dict relation_from_dict g
      (ReadsBack-all relation_to_dict relation_from_dict relation_reads_back g)

-- Every artifact of the dict has kept its class.
abbrev pub AllStorable : Dict String Artifact → Type 0
AllStorable [] = Unit
AllStorable ((k, a) ∷ arts) = IsStorableArtifact a × AllStorable arts

-- The baseline and its edges are set together, and can be written.
abbrev pub IsStorableBaseline : Option (Dict String Artifact) → Option Graph → Type 0
IsStorableBaseline none none = Unit
IsStorableBaseline (some arts) (some g) = AllStorable arts × IsEdgeSet g
IsStorableBaseline none (some g) = ⊥
IsStorableBaseline (some arts) none = ⊥

head_of-eq-last_id : (h : Option String) (cs : List Commit) → head_of h cs ≡ last_id h cs
unfolding head_of
head_of-eq-last_id h [] = refl
head_of-eq-last_id h (c ∷ cs) = head_of-eq-last_id (some c.id) cs

abbrev pub baseline_of : CommitLog → Baseline
baseline_of log = record {
  artifacts = log.baseline;
  relations = log.baseline_relations;
  version = log.baseline_version;
  head_id = log.baseline_head_id;
}

head_reads_back :
    (head h : Option String) (cs : List Commit)
    → head ≡ last_id h cs
    → (elim head [ some i ↦ some i | none ↦ head_of h cs ]) ≡ head
head_reads_back none h cs e = head_of-eq-last_id h cs ∙ sym e
head_reads_back (some i) h cs e = refl

-- The version and the head of the payload win; without a head, the commits tell it.
pub log_reads_back :
    (s : Schema) (log : CommitLog)
    → IsValid log
    → log_from_dict s log.commits (some log.version) log.head_id (baseline_of log) ≡ log
unfolding log_from_dict
log_reads_back s log h =
    ap (λ x. record log { head_id = x; index = rebuild_indices log.commits })
      (head_reads_back log.head_id log.baseline_head_id log.commits h.headed)
    ∙ ap (λ x. record log { index = x }) (sym h.indexed)

-- The events as they are read, all with the identity of none.
abbrev pub unnumbered : List Event → List Event
unnumbered [] = []
unnumbered (e ∷ es) = record e { ident = 0 } ∷ unnumbered es

module _ (s : Schema) (f : IsFaithful s) where
  pub artifacts_read_back :
      (arts : Dict String Artifact)
      → AllStorable arts
      → ReadsBackValues (artifact_to_dict s) (artifact_from_dict s) arts
  artifacts_read_back [] u = tt
  artifacts_read_back ((k, a) ∷ arts) u =
      (artifact_reads_back s f a u.0, artifacts_read_back arts u.1)

  baseline_parts :
      (b : Option (Dict String Artifact)) (g : Option Graph) (v : ℕ) (head : Option String)
      → IsStorableBaseline b g
      → (b ≡ none → (v ≡ 0) × (head ≡ none))
      → read_baseline s (
          baseline_to_dict s (record empty_log {
            baseline = b;
            baseline_relations = g;
            baseline_version = v;
            baseline_head_id = head;
          }))
        ≡ ok (record { artifacts = b; relations = g; version = v; head_id = head })
  unfolding read_baseline baseline_to_dict
  baseline_parts none none v head stored rooted = rw ((rooted refl).0, (rooted refl).1) refl
  baseline_parts (some arts) (some g) v head stored rooted = rw (
    read_fields-fields_of (artifact_to_dict s) (artifact_from_dict s) arts
        (artifacts_read_back arts stored.0),
    graph_reads_back g,
    optional_text_reads_back head,
    set_edges_lem g stored.1,
  )
  baseline_parts none (some g) v head stored rooted = absurd stored
  baseline_parts (some arts) none v head stored rooted = absurd stored

  pub baseline_reads_back :
      (log : CommitLog)
      → IsValid log
      → IsStorableBaseline log.baseline log.baseline_relations
      → read_baseline s (baseline_to_dict s log) ≡ ok (baseline_of log)
  unfolding baseline_to_dict
  baseline_reads_back log h stored =
      baseline_parts log.baseline log.baseline_relations log.baseline_version log.baseline_head_id
        stored (λ e. (h.rooted e, h.rooted_head (h.rooted e)))

  pub events_read_back :
      (es : List Event)
      → read_items (event_from_dict s) (items_of (event_to_dict s) es) ≡ ok (unnumbered es)
  unfolding read_items items_of
  events_read_back [] = refl
  events_read_back (e ∷ es) = rw (event_reads_back s f e, events_read_back es) refl
