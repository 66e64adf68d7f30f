-- ===== src/Prelude/Sets.antt =====
-- Python's `set`, as a list of distinct members in the order in which they came in. Nothing in
-- the program depends on the order, and every law here is about membership.
use mathlib.Core.Path.{◌≡◌, refl}
use mathlib.Core.Bool.{Bool, true, false, ◌||◌}
use mathlib.Core.List.{List, [], ◌∷◌, ◌++◌}
use native.Mathlib.Omega.{arith}
use reactifact.Prelude.Tests.{if◌then◌else◌}
use reactifact.Prelude.Equality.{Eq, ◌==◌}

module _ {ℓ} {A : Type ℓ} ⦃e : Eq A⦄ where
  -- `a in s`
  unfoldable pub contains : A → List A → Bool
  contains a [] = false
  contains a (x ∷ s) = if x == a then true else contains a s

  -- Nothing stands twice.
  abbrev pub IsOnce : List A → Type ℓ
  IsOnce [] = Unit
  IsOnce (x ∷ xs) = (contains x xs ≡ false) × IsOnce xs

  -- `s.add(a)`
  unfoldable pub add : A → List A → List A
  add a [] = a ∷ []
  add a (x ∷ s) = if x == a then x ∷ s else x ∷ add a s

  -- `s.discard(a)`
  unfoldable pub discard : A → List A → List A
  discard a [] = []
  discard a (x ∷ s) = let rest = discard a s in if x == a then rest else x ∷ rest

  -- `s | t`
  unfoldable pub union : List A → List A → List A
  unfolding add
  union s [] = s
  union s (x ∷ t) = union (add x s) t

  -- the set of a sequence's items
  unfoldable pub of_list : List A → List A
  unfolding add
  of_list [] = []
  of_list (x ∷ xs) = add x (of_list xs)

  pub contains-add :
      (a b : A) (s : List A) → contains a (add b s) ≡ (if b == a then true else contains a s)
  unfolding contains add
  contains-add a b [] = refl
  contains-add a b (x ∷ s) =
      ground (arith, contains-add a b s, e.beq_iff x a, e.beq_iff x b, e.beq_iff b a)

  pub contains-discard :
      (a b : A) (s : List A) → contains a (discard b s) ≡ (if b == a then false else contains a s)
  unfolding contains discard
  contains-discard a b [] = ground arith
  contains-discard a b (x ∷ s) =
      ground (arith, contains-discard a b s, e.beq_iff x a, e.beq_iff x b, e.beq_iff b a)

  pub contains-union :
      (a : A) (s t : List A) → contains a (union s t) ≡ (contains a s || contains a t)
  unfolding contains union
  contains-union a s [] = ground arith
  contains-union a s (x ∷ t) = ground (arith, contains-union a (add x s) t, contains-add a x s)

  pub contains-of_list : (a : A) (s : List A) → contains a (of_list s) ≡ contains a s
  unfolding contains of_list
  contains-of_list a [] = refl
  contains-of_list a (x ∷ s) = ground (arith, contains-of_list a s, contains-add a x (of_list s))

  pub contains-append :
      (a : A) (s t : List A) → contains a (s ++ t) ≡ (contains a s || contains a t)
  unfolding contains
  contains-append a [] t = refl
  contains-append a (x ∷ s) t = ground (arith, contains-append a s t)
