-- ===== src/Persistence/Extensions.antt =====
-- A log that extends another: what it adds, and that it is told by what it adds.
use reactifact.Prelude.{
  ℕ, suc, ◌+◌, ◌≤◌, String, ◌≡◌, refl, ◌∙◌, sym, ap, Option, some, List, [], ◌∷◌, ◌++◌, arith,
  length, keep_if, string_eq,
}
use mathlib.Core.List.{append_assoc}
use reactifact.Commit.{Commit}
use reactifact.CommitLog.{CommitLog}
use reactifact.CommitLog.Chain.{IsValid, IsLinked, last_id}
use reactifact.Persistence.Save.{is_after}

-- The log has the commits after those of the old one, on the same baseline.
pub record Extends (cs : List Commit) (old new : CommitLog) : Type 0 where
  pub commits : new.commits ≡ old.commits ++ cs
  pub baseline : new.baseline ≡ old.baseline
  pub baseline_relations : new.baseline_relations ≡ old.baseline_relations
  pub baseline_version : new.baseline_version ≡ old.baseline_version
  pub baseline_head_id : new.baseline_head_id ≡ old.baseline_head_id

-- A valid log is told by its commits and its baseline.
pub extended_once :
    (cs : List Commit) (old a b : CommitLog)
    → Extends cs old a
    → Extends cs old b
    → IsValid a
    → IsValid b
    → a ≡ b
extended_once cs old a b f g va vb =
    let commits : a.commits ≡ b.commits = f.commits ∙ sym g.commits in
    let version : a.baseline_version ≡ b.baseline_version =
      f.baseline_version ∙ sym g.baseline_version in
    let head : a.baseline_head_id ≡ b.baseline_head_id =
      f.baseline_head_id ∙ sym g.baseline_head_id in
    let counted : a.version ≡ b.version = cc (va.counted, vb.counted, commits, version) in
    let headed : a.head_id ≡ b.head_id = cc (va.headed, vb.headed, commits, head) in
    let indexed : a.index ≡ b.index = cc (va.indexed, vb.indexed, commits) in
    λ i. record {
      commits = commits i;
      version = counted i;
      head_id = headed i;
      index = indexed i;
      baseline = (f.baseline ∙ sym g.baseline) i;
      baseline_relations = (f.baseline_relations ∙ sym g.baseline_relations) i;
      baseline_version = version i;
      baseline_head_id = head i;
    }

pub Extends-trans :
    (c : Commit) (cs : List Commit) (old mid new : CommitLog)
    → Extends (c ∷ []) old mid
    → Extends cs mid new
    → Extends (c ∷ cs) old new
Extends-trans c cs old mid new f g = record {
  commits = g.commits ∙ ap (λ xs. xs ++ cs) f.commits ∙ append_assoc old.commits (c ∷ []) cs;
  baseline = g.baseline ∙ f.baseline;
  baseline_relations = g.baseline_relations ∙ f.baseline_relations;
  baseline_version = g.baseline_version ∙ f.baseline_version;
  baseline_head_id = g.baseline_head_id ∙ f.baseline_head_id;
}

-- The commits after the ones that are saved, by their versions.
all_after :
    (p v : ℕ) (h : Option String) (cs : List Commit)
    → IsLinked v h cs
    → p ≤ v
    → keep_if (is_after p) cs ≡ cs
unfolding is_after
all_after p v h [] l le = refl
all_after p v h (c ∷ cs) l le =
    ground (arith, all_after p (v + 1) (some c.id) cs l.2 (omega arith), l.1)

after_saved :
    (p v : ℕ) (h : Option String) (old cs : List Commit)
    → IsLinked v h (old ++ cs)
    → p ≡ v + length old
    → keep_if (is_after p) (old ++ cs) ≡ cs
unfolding is_after
after_saved p v h [] cs l e = all_after p v h cs l (omega arith)
after_saved p v h (c ∷ old) cs l e =
    ground (arith, after_saved p (v + 1) (some c.id) old cs l.2 (omega arith), l.1)

IsLinked-after :
    (v : ℕ) (h : Option String) (old cs : List Commit)
    → IsLinked v h (old ++ cs)
    → IsLinked (v + length old) (last_id h old) cs
IsLinked-after v h [] cs l = let e : v + 0 ≡ v = omega arith in rw e l
IsLinked-after v h (c ∷ old) cs l =
    let e : v + suc (length old) ≡ v + 1 + length old = omega arith in
    rw e (IsLinked-after (v + 1) (some c.id) old cs l.2)

-- What a valid log adds to another that it extends: the commits past its version, which fit its
-- end.
pub added-commits :
    (cs : List Commit) (old live : CommitLog)
    → IsValid old
    → IsValid live
    → Extends cs old live
    → (keep_if (is_after old.version) live.commits ≡ cs) × IsLinked old.version old.head_id cs
added-commits cs old live vo vl x =
    let l : IsLinked old.baseline_version old.baseline_head_id (old.commits ++ cs) =
      rw (sym x.baseline_version, sym x.baseline_head_id, sym x.commits) vl.linked in
    (
      ap (keep_if (is_after old.version)) x.commits
          ∙ after_saved old.version old.baseline_version old.baseline_head_id old.commits cs l
              vo.counted,
      rw (vo.counted, vo.headed)
          (IsLinked-after old.baseline_version old.baseline_head_id old.commits cs l),
    )
