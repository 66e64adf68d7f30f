-- ===== src/Policies/Permissions/Granted.antt =====
-- When a policy allows an action, and what the runtime checks by it.
use reactifact.Prelude.{
  String, ◌≡◌, ◌↔◌, refl, ap, ◌∙◌, true, Option, none, some, or_else, List, [], ◌∷◌, arith, ◌⊎◌,
  inl, inr, Bool-cases, ◌==◌, ==_iff, ==_refl, if◌then◌else◌, string_eq,
}
use reactifact.Prelude.Dict.{Dict, lookup}
use reactifact.Prelude.Sets.{contains}
use reactifact.Result.{ok, err, denied}
use reactifact.Policies.Permissions.{
  Principal, PermissionPolicy, permission_matches, some_matches, some_grants, authorize, require,
}
use reactifact.Policies.Permissions.Patterns.{Permits, permission_matches_lem}

module _ (action resource : String) where
  -- A pattern of the list that permits the action on the resource
  pub record Matching (ps : List String) : Type 0 where
    pub pattern : String
    pub listed : contains pattern ps ≡ true
    pub permits : Permits pattern action resource

  -- A capability whose grants have one
  pub record Granted (grants : Dict String (List String)) (cs : List String) : Type 0 where
    pub capability : String
    pub held : contains capability cs ≡ true
    pub grant : Matching (or_else (lookup capability grants) [])

  some_matches-Matching : (ps : List String) → some_matches ps action resource ≡ true → Matching ps
  unfolding some_matches contains
  some_matches-Matching [] e = cc
  some_matches-Matching (p ∷ ps) e = elim (Bool-cases (permission_matches p action resource)) [
    | inl fits ↦ record {
      pattern = p;
      listed = ground (arith, ==_refl p);
      permits = (permission_matches_lem p action resource).0 fits;
    }
    | inr misses ↦
        let m = some_matches-Matching ps (ground (arith, misses, e)) in
        record { pattern = m.pattern; listed = ground (arith, m.listed); permits = m.permits }
  ]

  Matching-some_matches :
      (p : String) (ps : List String)
      → contains p ps ≡ true
      → permission_matches p action resource ≡ true
      → some_matches ps action resource ≡ true
  unfolding some_matches contains
  Matching-some_matches p [] e fits = cc
  Matching-some_matches p (q ∷ ps) e fits = elim (Bool-cases (q == p)) [
    | inl same ↦
        let e' : permission_matches q action resource ≡ true =
          ap (λ x. permission_matches x action resource) ((==_iff q p).0 same) ∙ fits in
        ground (arith, e')
    | inr other ↦ ground (arith, Matching-some_matches p ps (ground (arith, other, e)) fits)
  ]

  some_grants-Granted :
      (grants : Dict String (List String)) (cs : List String)
      → some_grants grants cs action resource ≡ true
      → Granted grants cs
  unfolding some_grants contains
  some_grants-Granted grants [] e = cc
  some_grants-Granted grants (c ∷ cs) e =
      elim (Bool-cases (some_matches (or_else (lookup c grants) []) action resource)) [
        | inl fits ↦ record {
          capability = c;
          held = ground (arith, ==_refl c);
          grant = some_matches-Matching (or_else (lookup c grants) []) fits;
        }
        | inr misses ↦
            let g = some_grants-Granted grants cs (ground (arith, misses, e)) in
            record { capability = g.capability; held = ground (arith, g.held); grant = g.grant }
      ]

  Granted-some_grants :
      (grants : Dict String (List String)) (c : String) (cs : List String)
      → contains c cs ≡ true
      → some_matches (or_else (lookup c grants) []) action resource ≡ true
      → some_grants grants cs action resource ≡ true
  unfolding some_grants contains
  Granted-some_grants grants c [] e fits = cc
  Granted-some_grants grants c (x ∷ cs) e fits = elim (Bool-cases (x == c)) [
    | inl same ↦
        let e' : some_matches (or_else (lookup x grants) []) action resource ≡ true =
          ap (λ y. some_matches (or_else (lookup y grants) []) action resource)
            ((==_iff x c).0 same)
          ∙ fits in
        ground (arith, e')
    | inr other ↦ ground (arith, Granted-some_grants grants c cs (ground (arith, other, e)) fits)
  ]

  granted :
      (grants : Dict String (List String)) (cs : List String)
      → Granted grants cs
      → some_grants grants cs action resource ≡ true
  granted grants cs g = Granted-some_grants grants g.capability cs g.held (
      Matching-some_matches g.grant.pattern (or_else (lookup g.capability grants) []) g.grant.listed
        ((permission_matches_lem g.grant.pattern action resource).1 g.grant.permits))

-- A policy allows a principal an action on a resource exactly if one of the patterns that it grants
-- to one of the principal's capabilities permits it, or if it allows by default; where there is no
-- principal, only the default counts. `require` raises exactly if the policy does not allow it.
pub authorize_lem :
    (p : PermissionPolicy) (who : Principal) (action resource : String)
    → ((authorize p (some who) action resource ≡ true)
        ↔ (Granted action resource p.grants who.capabilities ⊎ (p.default_allow ≡ true)))
      × (authorize p none action resource ≡ p.default_allow)
      × ((w : Option Principal)
          → require p w action resource
            ≡ (if authorize p w action resource then ok tt else err denied))
unfolding authorize require
authorize_lem p who action resource = ((to, back), refl, required)
  where
    to :
        authorize p (some who) action resource ≡ true
        → Granted action resource p.grants who.capabilities ⊎ (p.default_allow ≡ true)
    to e = elim (Bool-cases (some_grants p.grants who.capabilities action resource)) [
      | inl fits ↦ inl (some_grants-Granted action resource p.grants who.capabilities fits)
      | inr misses ↦ inr (ground (arith, misses, e))
    ]

    back :
        Granted action resource p.grants who.capabilities ⊎ (p.default_allow ≡ true)
        → authorize p (some who) action resource ≡ true
    back (inl g) = ground (arith, granted action resource p.grants who.capabilities g)
    back (inr e) = ground (arith, e)

    required :
        (w : Option Principal)
        → require p w action resource
          ≡ (if authorize p w action resource then ok tt else err denied)
    required w = ground arith
