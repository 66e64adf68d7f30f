-- ===== src/Scheduler.antt =====
-- reactifact/scheduler.py: filter, rank, tie-break by a model and top-k over the work of one
-- generation. Scores are natural numbers, of which the program uses the order and differences.
pub mod Selection
use reactifact.Prelude.{
  insert_sorted, ℕ, ◌+◌, ◌-◌, ◌*◌, Bool, true, false, ◌&&◌, not, Option, none, some, List, [], ◌∷◌,
  ◌++◌, leb, ltb, length, take, keep_if, if◌then◌else◌, map,
}
use reactifact.Model.{Model, question}
use reactifact.Context.{Context, Event, get}
use reactifact.Runtime.{Agent, WorkItem}

abbrev pub Rule : Type 0
Rule = Context → Agent → Event → Bool

-- What the tie-break call returned: no valid answer, or the index that it chose.
pub record Scheduler : Type 0 where
  pub rules : List Rule
  pub metric : Context → Agent → Event → ℕ
  pub llm_tie_break : Option ℕ
  pub rank_limit : Option ℕ

-- `_is_resume`
unfoldable pub is_resume : Context → WorkItem → Bool
unfolding get
is_resume ctx w = elim (get w.event.artifact_id ctx) [
  | none ↦ false
  | some a ↦ elim a.data_ [ question q ↦ q.answered | _ ↦ false ]
]

unfoldable pub passes : List Rule → Context → WorkItem → Bool
passes [] ctx w = true
passes (r ∷ rs) ctx w = if r ctx w.agent w.event then passes rs ctx w else false

-- The hard filter; what it would empty it leaves whole.
unfoldable pub prune : List Rule → Context → List WorkItem → List WorkItem
unfolding passes
prune rules ctx rest = elim (keep_if (passes rules ctx) rest) [ [] ↦ rest | w ∷ ws ↦ w ∷ ws ]

-- The sort by falling score, with ties in their order.
unfoldable pub insert_ranked : (WorkItem → ℕ) → WorkItem → List WorkItem → List WorkItem
insert_ranked score x [] = x ∷ []
insert_ranked score x (y ∷ ys) =
    if leb (score y) (score x) then x ∷ y ∷ ys else y ∷ insert_ranked score x ys

unfoldable pub rank : (WorkItem → ℕ) → List WorkItem → List WorkItem
unfolding insert_ranked
rank score [] = []
rank score (x ∷ xs) = insert_ranked score x (rank score xs)

-- `_llm_order` on the top pair: `answer` is the index that the model gave, if it gave one.
unfoldable pub llm_order : Option ℕ → WorkItem → WorkItem → List WorkItem
llm_order none a b = a ∷ b ∷ []
llm_order (some i) a b = if leb i 0 then a ∷ b ∷ [] else if leb i 1 then b ∷ a ∷ [] else a ∷ b ∷ []

-- The tie-break, which needs two candidates and a model, and scores that are close. `llm` is
-- `none` without a model.
unfoldable pub tie_break :
    Option ℕ → Option (Option ℕ) → (WorkItem → ℕ) → List WorkItem → List WorkItem
unfolding llm_order
tie_break none llm score ranked = ranked
tie_break (some close) none score ranked = ranked
tie_break (some close) (some answer) score [] = []
tie_break (some close) (some answer) score (a ∷ []) = a ∷ []
tie_break (some close) (some answer) score (a ∷ b ∷ ws) =
    if leb (score a - score b) close then llm_order answer a b ++ ws else a ∷ b ∷ ws

unfoldable pub top : Option ℕ → List WorkItem → List WorkItem
top none ranked = ranked
top (some k) ranked = if ltb k (length ranked) then take k ranked else ranked

-- `Scheduler.run`
unfoldable pub run : Scheduler → Option (Option ℕ) → Context → List WorkItem → List WorkItem
unfolding is_resume prune rank tie_break top
run s llm ctx work =
    if leb (length work) 1
    then work
    else let pinned = keep_if (is_resume ctx) work in
      let rest = keep_if (λ w. not (is_resume ctx w)) work in
      let score = λ (w : WorkItem). s.metric ctx w.agent w.event in
      pinned
      ++ top s.rank_limit
          (tie_break s.llm_tie_break llm score (rank score (prune s.rules ctx rest)))
