-- ===== src/Types/Tables.antt =====
-- The invariant of the two tables, and what a class leaves behind that gives up its names.
use reactifact.Prelude.{
  String, ◌≡◌, refl, true, false, none, some, List, [], ◌∷◌, arith, ◌==◌, if◌then◌else◌, string_eq,
  nat_eq, inl, inr, ◌⊎◌, Bool-cases, Option-cases, ◌∙◌, ==_refl,
}
use reactifact.Prelude.Dict.{Dict, lookup, insert, remove, lookup-insert, lookup-remove}
use reactifact.Prelude.Sets.{contains}
use reactifact.Model.{Class, class_eq}
use reactifact.Types.{
  TypeSpec, Registry, no_types, spec_keys, drop_key, drop_keys, unregister, taken, set_keys,
}

-- A spec stands under its own model and is found under each of its names, and a name leads to a
-- spec that has it and is registered.
pub record IsConsistent (reg : Registry) : Type 0 where
  pub owned : (m : Class) (s : TypeSpec) → lookup m reg.specs ≡ some s → s.model ≡ m
  pub found :
      (m : Class) (s : TypeSpec) (k : String)
      → lookup m reg.specs ≡ some s
      → contains k (spec_keys s) ≡ true
      → lookup k reg.by_id ≡ some s
  pub named :
      (k : String) (s : TypeSpec)
      → lookup k reg.by_id ≡ some s
      → (contains k (spec_keys s) ≡ true) × (lookup s.model reg.specs ≡ some s)

pub no_types-IsConsistent : IsConsistent no_types
unfolding lookup
no_types-IsConsistent = record {
  owned = λ m s e. cc e;
  found = λ m s k e n. cc e;
  named = λ k s e. cc e;
}

pub lookup-set_keys :
    (s : TypeSpec) (ks : List String) (ids : Dict String TypeSpec) (k : String)
    → lookup k (set_keys s ks ids) ≡ (if contains k ks then some s else lookup k ids)
unfolding set_keys contains
lookup-set_keys s [] ids k = refl
lookup-set_keys s (j ∷ ks) ids k =
    ground (arith, lookup-set_keys s ks (insert j s ids) k, lookup-insert k j s ids)

lookup-drop_key :
    (old : TypeSpec) (j : String) (ids : Dict String TypeSpec) (k : String)
    → (lookup j ids ≡ some old) ⊎ (lookup j ids ≡ none)
    → lookup k (drop_key old j ids) ≡ (if j == k then none else lookup k ids)
unfolding drop_key
lookup-drop_key old j ids k (inl e) = rw (e, ==_refl old.ident, drop_key) (lookup-remove k j ids)
lookup-drop_key old j ids k (inr e) = rw (e, drop_key) (ground (arith, e, string_eq.beq_iff j k))

-- Where each key leads to the old spec or to none, it leads to none once the keys are dropped.
lookup-drop_keys :
    (old : TypeSpec) (ks : List String) (ids : Dict String TypeSpec) (k : String)
    → ((j : String) → contains j ks ≡ true → (lookup j ids ≡ some old) ⊎ (lookup j ids ≡ none))
    → lookup k (drop_keys old ks ids) ≡ (if contains k ks then none else lookup k ids)
unfolding drop_keys contains
lookup-drop_keys old [] ids k h = refl
lookup-drop_keys old (j ∷ ks) ids k h = ground (
  arith,
  lookup-drop_keys old ks (drop_key old j ids) k (λ i m. still i m),
  lookup-drop_key old j ids k (h j (ground (arith, ==_refl j))),
)
  where
    still :
        (i : String)
        → contains i ks ≡ true
        → (lookup i (drop_key old j ids) ≡ some old) ⊎ (lookup i (drop_key old j ids) ≡ none)
    still i m =
        let dropped = lookup-drop_key old j ids i (h j (ground (arith, ==_refl j))) in
        elim (Bool-cases (j == i)) [
          | inl same ↦ inr (dropped ∙ rw same refl)
          | inr apart ↦ elim (h i (ground (arith, m))) [
            | inl e ↦ inl (dropped ∙ rw apart e)
            | inr e ↦ inr (dropped ∙ rw apart e)
          ]
        ]

-- What is left of the tables when a class gives up its spec.
pub record Without (m : Class) (reg reg' : Registry) : Type 0 where
  pub consistent : IsConsistent reg'
  pub gone : lookup m reg'.specs ≡ none
  pub others : (m' : Class) → (m == m') ≡ false → lookup m' reg'.specs ≡ lookup m' reg.specs

pub unregister-Without :
    (m : Class) (reg : Registry) → IsConsistent reg → Without m reg (unregister m reg)
unfolding unregister
unregister-Without m reg h = elim (Option-cases (lookup m reg.specs)) [
  | inl e ↦ rw (e, unregister) (record { consistent = h; gone = e; others = λ m' apart. refl })
  | inr (old, e) ↦ rw (e, unregister) (removed old e)
]
  where
    left :
        (old : TypeSpec)
        → lookup m reg.specs ≡ some old
        → (k : String)
        → lookup k (drop_keys old (spec_keys old) reg.by_id)
          ≡ (if contains k (spec_keys old) then none else lookup k reg.by_id)
    left old e k =
        lookup-drop_keys old (spec_keys old) reg.by_id k (λ j named. inl (h.found m old j e named))

    removed :
        (old : TypeSpec)
        → lookup m reg.specs ≡ some old
        → Without m reg (record reg {
          specs = remove m reg.specs;
          by_id = drop_keys old (spec_keys old) reg.by_id;
        })
    removed old e = record {
      consistent = record {
        owned = λ m' s f. ground (arith, lookup-remove m' m reg.specs, h.owned m' s, f);
        found = λ m' s k f n. ground (
          arith,
          lookup-remove m' m reg.specs,
          class_eq.beq_iff m m',
          f,
          n,
          left old e k,
          h.found m' s k,
          h.found m old k,
          h.owned m' s,
          h.owned m old,
          e,
        );
        named = λ k s f. ground (
          arith,
          lookup-remove s.model m reg.specs,
          class_eq.beq_iff m s.model,
          f,
          left old e k,
          h.named k s,
          e,
        );
      };
      gone = ground (arith, lookup-remove m m reg.specs, ==_refl m);
      others = λ m' apart. ground (arith, lookup-remove m' m reg.specs, apart);
    }

-- Where no key is another model's, each leads to none or to a spec of this model.
pub not_taken :
    (m : Class) (ks : List String) (ids : Dict String TypeSpec) (k : String) (s : TypeSpec)
    → taken m ks ids ≡ none
    → contains k ks ≡ true
    → lookup k ids ≡ some s
    → s.model ≡ m
unfolding taken contains
not_taken m [] ids k s free named e = cc named
not_taken m (j ∷ ks) ids k s free named e = elim (Option-cases (lookup j ids)) [
  | inl n ↦ ground (arith, n, e, free, named, string_eq.beq_iff j k, not_taken m ks ids k s)
  | inr (t, n) ↦ ground (
    arith,
    n,
    e,
    free,
    named,
    string_eq.beq_iff j k,
    class_eq.beq_iff t.model m,
    not_taken m ks ids k s,
  )
]
