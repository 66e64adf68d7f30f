-- ===== src/Budget/Monotone.antt =====
-- reactifact/budget.py: when a turn's token and cost limits stop it.
use reactifact.Prelude.{ℕ, ◌≡◌, true, Option, none, some, arith, is_some, Option-cases, inl, inr}
use reactifact.Budget.{Budget, BudgetTracker, total_tokens, record_usage, exhausted}

-- A turn whose limits are spent stays so whatever is recorded next.
exhausted-record_usage :
    (b : Option Budget) (prompt completion cost : ℕ) (t : BudgetTracker)
    → is_some (exhausted b t) ≡ true
    → is_some (exhausted b (record_usage prompt completion cost t)) ≡ true
unfolding exhausted record_usage total_tokens
exhausted-record_usage none prompt completion cost t spent = spent
exhausted-record_usage (some b) prompt completion cost t spent = elim (Option-cases b.max_tokens) [
  | inl e ↦ elim (Option-cases b.max_cost) [
    | inl f ↦ ground (arith, e, f)
    | inr (m, f) ↦ ground (arith, e, f)
  ]
  | inr (n, e) ↦ elim (Option-cases b.max_cost) [
    | inl f ↦ ground (arith, e, f)
    | inr (m, f) ↦ ground (arith, e, f)
  ]
]
