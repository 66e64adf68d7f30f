-- ===== src/Policies/Permissions/Patterns.antt =====
-- Which actions on which resources a pattern permits.
use Prim.Native.Char.{Char}
use text.Mathlib.TextBridge.{of_list}
use reactifact.Prelude.Texts.{chars}
use reactifact.Prelude.{
  String, ◌≡◌, ◌↔◌, refl, ap, ◌∙◌, true, false, none, some, [], ◌∷◌, ◌++◌, ◌==◌, arith, ◌⊎◌, inl,
  inr, Bool-cases, ==_iff, string_eq,
}
use reactifact.Policies.Permissions.{Text, is_colon, partition, covers, permission_matches}

-- No colon stands in a text.
abbrev pub IsPlain : Text → Type 0
IsPlain [] = Unit
IsPlain (c ∷ t) = (is_colon c ≡ false) × IsPlain t

partition_plain : (t : Text) → IsPlain t → partition t ≡ none
unfolding partition
partition_plain [] h = refl
partition_plain (c ∷ t) h = ground (arith, h.0, partition_plain t h.1)

partition_parts :
    (a : Text) (c : Char) (r : Text)
    → IsPlain a
    → is_colon c ≡ true
    → partition (a ++ c ∷ r) ≡ some (a, r)
unfolding partition
partition_parts [] c r h e = ground (arith, e)
partition_parts (x ∷ a) c r h e = ground (arith, h.0, partition_parts a c r h.1 e)

-- A text at its first colon.
record Split (t : Text) : Type 0 where
  left : Text
  colon : Char
  right : Text
  is_one : is_colon colon ≡ true
  plain : IsPlain left
  whole : t ≡ left ++ colon ∷ right

partition-cases : (t : Text) → IsPlain t ⊎ Split t
partition-cases [] = inl tt
partition-cases (c ∷ t) = elim (Bool-cases (is_colon c)) [
  | inl e ↦ inr (record { left = []; colon = c; right = t; is_one = e; plain = tt; whole = refl })
  | inr other ↦ elim (partition-cases t) [
    | inl plain ↦ inl (other, plain)
    | inr s ↦ inr (record {
      left = c ∷ s.left;
      colon = s.colon;
      right = s.right;
      is_one = s.is_one;
      plain = (other, s.plain);
      whole = ap (◌∷◌ c) s.whole;
    })
  ]
]

-- What a pattern permits: everything, an action on any resource if it has no colon, or what both of
-- its parts cover, `*` any name and another text itself.
pub data Permits (pattern action resource : String) : Type 0 where
  anything : pattern ≡ "*" → Permits pattern action resource
  action_alone : IsPlain (chars pattern) → pattern ≡ action → Permits pattern action resource
  both :
      (left : Text) (c : Char) (right : Text)
      → chars pattern ≡ left ++ c ∷ right
      → IsPlain left
      → is_colon c ≡ true
      → covers (of_list left) action ≡ true
      → covers (of_list right) resource ≡ true
      → Permits pattern action resource

permits :
    (pattern action resource : String)
    → permission_matches pattern action resource ≡ true
    → Permits pattern action resource
unfolding permission_matches
permits pattern action resource e = elim (Bool-cases (pattern == "*")) [
  | inl star ↦ anything ((==_iff pattern "*").0 star)
  | inr other ↦ elim (partition-cases (chars pattern)) [
    | inl plain ↦ action_alone plain (
        (==_iff pattern action).0 (ground (arith, partition_plain (chars pattern) plain, other, e)))
    | inr s ↦
        let parts =
          ap partition s.whole ∙ partition_parts s.left s.colon s.right s.plain s.is_one in
        both s.left s.colon s.right s.whole s.plain s.is_one (ground (arith, parts, other, e))
          (ground (arith, parts, other, e))
  ]
]

matched :
    (pattern action resource : String)
    → Permits pattern action resource
    → permission_matches pattern action resource ≡ true
unfolding permission_matches
matched pattern action resource (anything e) = ground (arith, (==_iff pattern "*").1 e)
matched pattern action resource (action_alone plain e) =
    ground (arith, partition_plain (chars pattern) plain, (==_iff pattern action).1 e)
matched pattern action resource (both left c right whole plain colon a r) =
    ground (arith, ap partition whole, partition_parts left c right plain colon, a, r)

pub permission_matches_lem :
    (pattern action resource : String)
    → (permission_matches pattern action resource ≡ true) ↔ Permits pattern action resource
permission_matches_lem pattern action resource =
    (permits pattern action resource, matched pattern action resource)
