-- ===== src/Types/Laws.antt =====
-- The tables stay consistent, and a registered class is found again under each of its names.
use reactifact.Prelude.{
  ◌+◌, String, ◌≡◌, true, Option, none, some, List, arith, string_eq, nat_eq, inl, inr,
  Option-cases, ap, ==_refl,
}
use reactifact.Prelude.Dict.{lookup, insert, lookup-insert}
use reactifact.Prelude.Sets.{contains}
use reactifact.Result.{err, Error}
use reactifact.Model.{Class, class_eq}
use reactifact.Json.{Json}
use reactifact.Types.{
  TypeSpec, Registry, spec_keys, unregister, taken, set_keys, text_or, Registered, register,
  type_id_of, resolve,
}
use reactifact.Types.Tables.{IsConsistent, lookup-set_keys, unregister-Without, not_taken}

-- The tables with a spec whose names are free.
abbrev entered : TypeSpec → Registry → Registry
entered s reg = record {
  specs = insert s.model s reg.specs;
  by_id = set_keys s (spec_keys s) reg.by_id;
  next = s.ident + 1;
}

entered-IsConsistent :
    (s : TypeSpec) (reg : Registry)
    → IsConsistent reg
    → lookup s.model reg.specs ≡ none
    → taken s.model (spec_keys s) reg.by_id ≡ none
    → IsConsistent (entered s reg)
entered-IsConsistent s reg h gone free = record {
  owned = λ m t e.
      ground
        (arith, lookup-insert m s.model s reg.specs, class_eq.beq_iff s.model m, h.owned m t, e);
  found = λ m t k e n. ground (
    arith,
    lookup-insert m s.model s reg.specs,
    class_eq.beq_iff s.model m,
    lookup-set_keys s (spec_keys s) reg.by_id k,
    h.found m t k,
    h.owned m t,
    not_taken s.model (spec_keys s) reg.by_id k t free,
    e,
    n,
  );
  named = λ k t e. ground (
    arith,
    lookup-insert t.model s.model s reg.specs,
    class_eq.beq_iff s.model t.model,
    lookup-set_keys s (spec_keys s) reg.by_id k,
    h.named k t,
    gone,
    e,
  );
}

module _ (type_id_attr : Class → Option String) (qualname : Class → String)
    (import_class : String → Option Class) (m : Class) (type_id : Option String)
    (aliases : List String) (migrate : Option (Json → Json)) (reg : Registry) where
  abbrev after : Registered
  after = register type_id_attr qualname m type_id aliases migrate reg

  abbrev new_spec : TypeSpec
  new_spec = record {
    ident = reg.next;
    model = m;
    type_id = text_or type_id (text_or (type_id_attr m) (qualname m));
    aliases = aliases;
    migrate = migrate;
  }

  pub register-IsConsistent : IsConsistent reg → IsConsistent after.registry
  unfolding register
  register-IsConsistent h =
      let w = unregister-Without m reg h in
      elim (Option-cases (taken m (spec_keys new_spec) (unregister m reg).by_id)) [
        | inl free ↦
            rw (free, register)
              (entered-IsConsistent new_spec (unregister m reg) w.consistent w.gone free)
        | inr (k, e) ↦
            rw (e, register)
              (record {
                owned = w.consistent.owned;
                found = w.consistent.found;
                named = w.consistent.named;
              })
      ]

  -- After a call of `register`, refused or not, on consistent tables: the tables are consistent, and
  -- every class that is registered then is found again under its type id and each of its aliases.
  pub register-resolve :
      (m' : Class) (s : TypeSpec) (k : String)
      → IsConsistent reg
      → lookup m' after.registry.specs ≡ some s
      → contains k (spec_keys s) ≡ true
      → IsConsistent after.registry
        × (resolve import_class after.registry k ≡ some m')
        × (resolve import_class after.registry (type_id_of type_id_attr qualname after.registry m')
            ≡ some m')
  unfolding resolve type_id_of contains
  register-resolve m' s k h e n =
      let c = register-IsConsistent h in
      (
        c,
        rw (c.found m' s k e n, resolve) (ap some (c.owned m' s e)),
        rw (e, type_id_of)
            (rw (c.found m' s s.type_id e (ground (arith, ==_refl s.type_id)), resolve)
              (ap some (c.owned m' s e))),
      )

  -- A registration that is refused, because another class has one of the names, takes away the spec
  -- that the class had before.
  pub register_refused :
      (why : Error)
      → IsConsistent reg
      → after.outcome ≡ err why
      → lookup m after.registry.specs ≡ none
  unfolding register
  register_refused why h refused =
      elim (Option-cases (taken m (spec_keys new_spec) (unregister m reg).by_id)) [
        | inl free ↦ cc (rw (free, register) at refused)
        | inr (k, e) ↦ rw (e, register) (unregister-Without m reg h).gone
      ]
