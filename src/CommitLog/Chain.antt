-- ===== src/CommitLog/Chain.antt =====
-- The invariant of the commit log: positions, parents, head and indices fit the list of commits.
use reactifact.Prelude.{
  ℕ, zero, suc, ◌+◌, ◌-◌, ◌≤◌, ◌<◌, String, ◌≡◌, refl, Option, none, some, List, [], ◌∷◌, ◌++◌,
  arith, take, drop, length, length-append, length-take, ap, ◌∙◌, sym,
}
use reactifact.Result.{ok}
use reactifact.Commit.{Commit}
use reactifact.CommitLog.Index.{Index, no_index, index_commit, index_commits, rebuild_indices}
use reactifact.CommitLog.Defs.{CommitLog, empty_log, place, append}
use reactifact.CommitLog.Rewind.{id_at, head_at, truncate}

abbrev pub last_id : Option String → List Commit → Option String
last_id h [] = h
last_id h (c ∷ cs) = last_id (some c.id) cs

-- Each commit names the one before it as its parent, and its own position as its version.
abbrev pub IsLinked : ℕ → Option String → List Commit → Type 0
IsLinked v h [] = Unit
IsLinked v h (c ∷ cs) =
    (c.parent_id ≡ h) × (c.context_version ≡ some (v + 1)) × IsLinked (v + 1) (some c.id) cs

pub record IsValid (log : CommitLog) : Type 0 where
  pub counted : log.version ≡ log.baseline_version + length log.commits
  pub indexed : log.index ≡ rebuild_indices log.commits
  pub headed : log.head_id ≡ last_id log.baseline_head_id log.commits
  pub linked : IsLinked log.baseline_version log.baseline_head_id log.commits
  pub rooted : log.baseline ≡ none → log.baseline_version ≡ 0
  pub rooted_edges : log.baseline_relations ≡ none → log.baseline_version ≡ 0
  pub rooted_head : log.baseline_version ≡ 0 → log.baseline_head_id ≡ none

pub empty_log-IsValid : IsValid empty_log
unfolding rebuild_indices index_commits
empty_log-IsValid = record {
  counted = omega arith;
  indexed = refl;
  headed = refl;
  linked = tt;
  rooted = λ _. refl;
  rooted_edges = λ _. refl;
  rooted_head = λ _. refl;
}

index_commits-append :
    (cs : List Commit) (c : Commit) (ix : Index)
    → index_commits (cs ++ c ∷ []) ix ≡ index_commit c (index_commits cs ix)
unfolding index_commits
index_commits-append [] c ix = refl
index_commits-append (d ∷ cs) c ix = index_commits-append cs c (index_commit d ix)

last_id-append :
    (h : Option String) (cs : List Commit) (c : Commit) → last_id h (cs ++ c ∷ []) ≡ some c.id
last_id-append h [] c = refl
last_id-append h (d ∷ cs) c = last_id-append (some d.id) cs c

IsLinked-append :
    (v : ℕ) (h : Option String) (cs : List Commit) (c : Commit)
    → IsLinked v h cs
    → c.parent_id ≡ last_id h cs
    → c.context_version ≡ some (v + length cs + 1)
    → IsLinked v h (cs ++ c ∷ [])
IsLinked-append v h [] c l p q = (p, q ∙ ap some (omega arith), tt)
IsLinked-append v h (d ∷ cs) c l p q =
    (l.0, l.1, IsLinked-append (v + 1) (some d.id) cs c l.2 p (q ∙ ap some (omega arith)))

IsLinked-take :
    (n v : ℕ) (h : Option String) (cs : List Commit) → IsLinked v h cs → IsLinked v h (take n cs)
IsLinked-take zero v h cs l = tt
IsLinked-take (suc n) v h [] l = tt
IsLinked-take (suc n) v h (c ∷ cs) l = (l.0, l.1, IsLinked-take n (v + 1) (some c.id) cs l.2)

pub IsLinked-drop :
    (n v : ℕ) (h : Option String) (cs : List Commit)
    → n ≤ length cs
    → IsLinked v h cs
    → IsLinked (v + n) (last_id h (take n cs)) (drop n cs)
IsLinked-drop zero v h cs b l = let e : v + 0 ≡ v = omega arith in rw e l
IsLinked-drop (suc n) v h [] b l = absurd (omega arith)
IsLinked-drop (suc n) v h (c ∷ cs) b l =
    let e : v + suc n ≡ v + 1 + n = omega arith in
    rw e (IsLinked-drop n (v + 1) (some c.id) cs (omega arith) l.2)

pub last_id-take-drop :
    (n : ℕ) (h : Option String) (cs : List Commit)
    → last_id (last_id h (take n cs)) (drop n cs) ≡ last_id h cs
last_id-take-drop zero h cs = refl
last_id-take-drop (suc n) h [] = refl
last_id-take-drop (suc n) h (c ∷ cs) = last_id-take-drop n (some c.id) cs

-- Appending a commit keeps the log valid: it is linked to the old head, moves the head and the
-- version, and the indices are those of a rebuild.
pub append-IsValid : (c : Commit) (log : CommitLog) → IsValid log → IsValid (append c log)
unfolding append rebuild_indices
append-IsValid c log h = record {
  counted = omega (arith, length-append log.commits (place c log ∷ []), h.counted);
  indexed = cc (h.indexed, index_commits-append log.commits (place c log) no_index);
  headed = sym (last_id-append log.baseline_head_id log.commits (place c log));
  linked =
      IsLinked-append log.baseline_version log.baseline_head_id log.commits (place c log) h.linked
        (unfold place in h.headed) (unfold place in ap some (omega (arith, h.counted)));
  rooted = h.rooted;
  rooted_edges = h.rooted_edges;
  rooted_head = h.rooted_head;
}

id_at-take :
    (i : ℕ) (h : Option String) (cs : List Commit)
    → i < length cs
    → id_at i cs ≡ ok (last_id h (take (suc i) cs))
unfolding id_at
id_at-take i h [] b = absurd (omega arith)
id_at-take zero h (c ∷ cs) b = refl
id_at-take (suc i) h (c ∷ cs) b = id_at-take i (some c.id) cs (omega arith)

-- At a version that the log still holds, `head_at` is the id of the last commit up to there.
pub head_at_lem :
    (v : ℕ) (log : CommitLog)
    → IsValid log
    → log.baseline_version ≤ v
    → v ≤ log.version
    → head_at v log
      ≡ ok (last_id log.baseline_head_id (take (v - log.baseline_version) log.commits))
unfolding head_at
head_at_lem v log h lo hi = by_distance (v - log.baseline_version) refl
  where
    by_distance :
        (k : ℕ)
        → v - log.baseline_version ≡ k
        → head_at v log
          ≡ ok (last_id log.baseline_head_id (take (v - log.baseline_version) log.commits))
    by_distance zero e = rw e (ground (arith, h.rooted_head))
    by_distance (suc i) e =
        let held : i < length log.commits = omega (arith, h.counted) in
        rw e (ground (arith, id_at-take i log.baseline_head_id log.commits held))

abbrev pub rewound : ℕ → CommitLog → CommitLog
rewound v log = record log {
  head_id = last_id log.baseline_head_id (take (v - log.baseline_version) log.commits);
  commits = take (v - log.baseline_version) log.commits;
  version = v;
  index = rebuild_indices (take (v - log.baseline_version) log.commits);
}

pub truncate-rewound :
    (v : ℕ) (log : CommitLog)
    → IsValid log
    → log.baseline_version ≤ v
    → v ≤ log.version
    → truncate v log ≡ ok (rewound v log)
unfolding truncate
truncate-rewound v log h lo hi = ground (arith, head_at_lem v log h lo hi)

pub rewound-IsValid :
    (v : ℕ) (log : CommitLog)
    → IsValid log
    → log.baseline_version ≤ v
    → v ≤ log.version
    → IsValid (rewound v log)
rewound-IsValid v log h lo hi = record {
  counted = omega (arith, length-take (v - log.baseline_version) log.commits, h.counted);
  indexed = refl;
  headed = refl;
  linked =
      IsLinked-take (v - log.baseline_version) log.baseline_version log.baseline_head_id log.commits
        h.linked;
  rooted = h.rooted;
  rooted_edges = h.rooted_edges;
  rooted_head = h.rooted_head;
}
