-- ===== src/RelationGraph/Laws.antt =====
-- What linking and unlinking do to the set of edges, and that a replay does the same.
use reactifact.Prelude.{
  ◌+◌, String, ◌≡◌, refl, false, ◌&&◌, Option, [], ◌∷◌, arith, length, if◌then◌else◌, ==_iff,
  string_eq,
}
use reactifact.Prelude.Sets.{contains}
use reactifact.Operations.{Relation, relation_eq}
use reactifact.RelationGraph.{Graph, unlinks, unlink, selects, relations}
use reactifact.CommitLog.{replay_unlink}

unlink-cons :
    (s : String) (r t : Option String) (x : Relation) (g : Graph)
    → unlink s r t (x ∷ g) ≡ (
        if unlinks s r t x
        then ((unlink s r t g).0, (unlink s r t g).1 + 1)
        else (x ∷ (unlink s r t g).0, (unlink s r t g).1))
unfolding unlink
unlink-cons s r t x g = refl

contains-unlink :
    (s : String) (r t : Option String) (g : Graph) (e : Relation)
    → contains e (unlink s r t g).0 ≡ (if unlinks s r t e then false else contains e g)
unfolding contains
contains-unlink s r t [] e = unfold unlink in ground arith
contains-unlink s r t (x ∷ g) e =
    ground (arith, unlink-cons s r t x g, contains-unlink s r t g e, ==_iff x e)

length-unlink :
    (s : String) (r t : Option String) (g : Graph)
    → length (unlink s r t g).0 + (unlink s r t g).1 ≡ length g
length-unlink s r t [] = unfold unlink in refl
length-unlink s r t (x ∷ g) = ground (arith, unlink-cons s r t x g, length-unlink s r t g)

replay_unlink-cons :
    (s : String) (r t : Option String) (x : Relation) (g : Graph)
    → replay_unlink s r t (x ∷ g)
      ≡ (if unlinks s r t x then replay_unlink s r t g else x ∷ replay_unlink s r t g)
unfolding replay_unlink unlinks
replay_unlink-cons s r t x g = ground arith

unlink-eq-replay_unlink :
    (s : String) (r t : Option String) (g : Graph) → (unlink s r t g).0 ≡ replay_unlink s r t g
unlink-eq-replay_unlink s r t [] = unfold unlink replay_unlink in refl
unlink-eq-replay_unlink s r t (x ∷ g) =
    ground
      (arith, unlink-cons s r t x g, replay_unlink-cons s r t x g, unlink-eq-replay_unlink s r t g)

-- Unlinking takes away exactly the edges that fit the pattern, counts them, and is what the
-- replay of the operation does.
pub unlink_lem :
    (s : String) (r t : Option String) (g : Graph)
    → ((e : Relation)
        → contains e (unlink s r t g).0 ≡ (if unlinks s r t e then false else contains e g))
      × (length (unlink s r t g).0 + (unlink s r t g).1 ≡ length g)
      × ((unlink s r t g).0 ≡ replay_unlink s r t g)
unlink_lem s r t g =
    (contains-unlink s r t g, length-unlink s r t g, unlink-eq-replay_unlink s r t g)

relations-cons :
    (s r t : Option String) (x : Relation) (g : Graph)
    → relations s r t (x ∷ g)
      ≡ (if selects s r t x then x ∷ relations s r t g else relations s r t g)
unfolding relations
relations-cons s r t x g = refl

-- A query returns exactly the edges of the graph that fit each component that it gives.
pub contains-relations :
    (s r t : Option String) (g : Graph) (e : Relation)
    → contains e (relations s r t g) ≡ (contains e g && selects s r t e)
unfolding contains
contains-relations s r t [] e = unfold relations contains in refl
contains-relations s r t (x ∷ g) e =
    ground (arith, relations-cons s r t x g, contains-relations s r t g e, ==_iff x e)
