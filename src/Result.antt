-- ===== src/Result.antt =====
-- The exceptions that the modelled code raises, and calls that return or raise.
use reactifact.Prelude.{String, ◌≡◌, refl, Bool, true, false, List, ◌⊎◌, inl, inr}

-- `stopped` is whatever a callback of the application raises.
pub data Error : Type 0 where
  invalid_version below_baseline index_error missing_id undeclared_type denied : Error
  key_error type_error unknown_type unknown_operation newer_format no_migration : Error
  type_id_taken : String → Error
  merge_conflict : List String → Error
  guardrail_violation value_error replay_miss attribute_error : Error
  stopped : String → Error

pub data Result {ℓ} (A : Type ℓ) : Type ℓ where
  err : Error → Result A
  ok : A → Result A

-- A call, and what is done with the value that it returns.
infixl 5 ◌>>=◌
abbrev pub ◌>>=◌ {ℓ κ} : {A : Type ℓ} → {B : Type κ} → Result A → (A → Result B) → Result B
err why >>= next = err why
ok value >>= next = next value

-- `if test: raise e`
infixl 5 ◌>>◌
abbrev pub ◌>>◌ {ℓ} : {B : Type ℓ} → Result (Unit {0}) → Result B → Result B
m >> k = m >>= λ _. k

abbrev pub raise_if : Bool → Error → Result (Unit {0})
raise_if true e = err e
raise_if false e = ok tt

-- A chain of calls that returns has a first call that returns.
pub >>=-eq-ok {ℓ κ} :
    {A : Type ℓ} {B : Type κ} (call : Result A) (next : A → Result B) {b : B}
    → (call >>= next) ≡ ok b
    → (a : A) × (call ≡ ok a) × (next a ≡ ok b)
>>=-eq-ok (err why) next returned = cc
>>=-eq-ok (ok value) next returned = (value, refl, returned)

pub Result-cases {ℓ} :
    {A : Type ℓ} (r : Result A) → ((a : A) × (r ≡ ok a)) ⊎ ((e : Error) × (r ≡ err e))
Result-cases (ok a) = inl (a, refl)
Result-cases (err e) = inr (e, refl)
