-- ===== src/Persistence/Snapshots.antt =====
-- A context that is saved whole is loaded as it was.
use reactifact.Prelude.{ℕ, String, ◌≡◌, ◌∙◌, true, Option, some, [], ◌∷◌, string_eq, ==_refl}
use reactifact.Prelude.Dict.{Dict, insert}
use reactifact.Result.{ok}
use reactifact.Context.{rebuild_indices, recompute_stale, reindex_by_type}
use reactifact.Json.{Json}
use reactifact.Codec.{IsFaithful, context_to_dict}
use reactifact.Codec.Branches.{IsStorable, IsStorableBase, reloaded_branch, context_reads_back}
use reactifact.Persistence.Backends.{AppendBackend}
use reactifact.Persistence.Save.{Live, saved_point, mark_persisted, snapshot_due, save_append}
use reactifact.Persistence.Load.{
  read_entries, finish_loading, load_from, load_append, load_append_stored,
}

-- Where a snapshot is due, a context that can be stored is loaded, from the store that
-- `save_append` leaves, as it was, with its caches computed anew, and is marked as saved; whatever
-- entries the store had under the key.
pub save-load_snapshot :
    (s : reactifact.Codec.Schema) (f : IsFaithful s) (migrations : Dict ℕ (Json → Json))
    {St : Type 0} (b : AppendBackend St) (compact_every : Option ℕ) (key : String) (x : Live)
    (st : St)
    → IsStorable x.branch.context
    → IsStorableBase x.branch.base
    → snapshot_due s b compact_every key x st ≡ true
    → load_append s migrations b key (save_append s b compact_every key x st).1
      ≡ ok (
          some (record {
            branch = reloaded_branch x.branch;
            persisted = insert key (saved_point x.branch) (("", saved_point x.branch) ∷ []);
          }))
unfolding save_append load_from read_entries finish_loading mark_persisted rebuild_indices
    recompute_stale reindex_by_type
save-load_snapshot s f migrations b compact_every key x st h hb due =
    let own = b.kv.set key (context_to_dict s x.branch) st in
    rw due (
      load_append_stored s migrations b key (b.clear_entries key own) (context_to_dict s x.branch)
        []
        (b.get-clear_entries key key own
          ∙ b.kv.get-set key key (context_to_dict s x.branch) st
          ∙ rw (==_refl key))
        (b.entries-clear_entries key key own ∙ rw (==_refl key))
      ∙ rw (context_reads_back s f migrations x.branch h hb))
