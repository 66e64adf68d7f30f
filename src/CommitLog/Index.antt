-- ===== src/CommitLog/Index.antt =====
-- The indices of reactifact/commit_log.py that answer `producing_commit` and `dependents_of`
-- without a scan of the commits.
use reactifact.Prelude.{String, none, some, List, [], ◌∷◌, or_else, string_eq}
use reactifact.Prelude.Dict.{Dict, lookup, insert, remove}
use reactifact.Prelude.Sets.{add, discard}
use reactifact.Commit.{Commit, Write, sources}

pub record Index : Type 0 where
  pub last_write_commit : Dict String Commit
  pub dependents : Dict String (List String)
  pub producing_read_ids : Dict String (List String)

abbrev pub no_index : Index
no_index = record { last_write_commit = []; dependents = []; producing_read_ids = [] }

-- `if not deps: del self._dependents[src]`, else the set has changed in place
unfoldable pub store_set :
    String → List String → Dict String (List String) → Dict String (List String)
store_set src [] deps = remove src deps
store_set src (a ∷ s) deps = insert src (a ∷ s) deps

unfoldable pub drop_edge : String → String → Dict String (List String) → Dict String (List String)
unfolding store_set
drop_edge aid src deps = elim (lookup src deps) [
  | none ↦ deps
  | some s ↦ store_set src (discard aid s) deps
]

unfoldable pub drop_edges :
    String → List String → Dict String (List String) → Dict String (List String)
drop_edges aid [] deps = deps
drop_edges aid (src ∷ olds) deps = drop_edges aid olds (drop_edge aid src deps)

-- `self._dependents.setdefault(src, set()).add(aid)`
unfoldable pub add_edge : String → String → Dict String (List String) → Dict String (List String)
add_edge aid src deps = insert src (add aid (or_else (lookup src deps) [])) deps

unfoldable pub add_edges :
    String → List String → Dict String (List String) → Dict String (List String)
add_edges aid [] deps = deps
add_edges aid (src ∷ news) deps = add_edges aid news (add_edge aid src deps)

-- The body of the loop of `_index_commit`.
unfoldable pub index_write : Commit → String → Index → Index
index_write c aid ix =
    let olds = or_else (lookup aid ix.producing_read_ids) [] in
    record {
      last_write_commit = insert aid c ix.last_write_commit;
      dependents = add_edges aid (sources c) (drop_edges aid olds ix.dependents);
      producing_read_ids = insert aid (sources c) ix.producing_read_ids;
    }

unfoldable pub index_writes : Commit → List Write → Index → Index
unfolding index_write
index_writes c [] ix = ix
index_writes c (w ∷ ws) ix = index_writes c ws (index_write c w.artifact_id ix)

-- `_index_commit`
unfoldable pub index_commit : Commit → Index → Index
unfolding index_writes
index_commit c ix = index_writes c c.writes ix

unfoldable pub index_commits : List Commit → Index → Index
unfolding index_commit
index_commits [] ix = ix
index_commits (c ∷ cs) ix = index_commits cs (index_commit c ix)

-- `_rebuild_indices`
unfoldable pub rebuild_indices : List Commit → Index
unfolding index_commits
rebuild_indices cs = index_commits cs no_index
