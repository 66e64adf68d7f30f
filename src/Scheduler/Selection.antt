-- ===== src/Scheduler/Selection.antt =====
-- reactifact/scheduler.py: what `Scheduler.run` keeps of the work it is given.
use reactifact.Prelude.{
  ℕ, zero, suc, ◌+◌, ◌≤◌, ◌≡◌, refl, Bool, not, ◌&&◌, Option, none, some, List, [], ◌∷◌, ◌++◌,
  arith, leb, length, take, keep_if, if◌then◌else◌, Bool-cases, inl, inr,
}
use reactifact.Context.{Context}
use reactifact.Runtime.{WorkItem}
use reactifact.Scheduler.{
  Scheduler, Rule, is_resume, passes, prune, insert_ranked, rank, llm_order, tie_break, top, run,
}

-- How many items satisfy a test.
pub count : (WorkItem → Bool) → List WorkItem → ℕ
count p [] = 0
count p (w ∷ ws) = if p w then suc (count p ws) else count p ws

module _ (p : WorkItem → Bool) where
  count-append : (ws vs : List WorkItem) → count p (ws ++ vs) ≡ count p ws + count p vs
  unfolding count
  count-append [] vs = omega arith
  count-append (w ∷ ws) vs = ground (arith, count-append ws vs)

  count-keep_if_le :
      (f : WorkItem → Bool) (ws : List WorkItem) → count p (keep_if f ws) ≤ count p ws
  unfolding count
  count-keep_if_le f [] = omega arith
  count-keep_if_le f (w ∷ ws) = ground (arith, count-keep_if_le f ws)

  count-take : (n : ℕ) (ws : List WorkItem) → count p (take n ws) ≤ count p ws
  unfolding count
  count-take zero ws = omega arith
  count-take (suc n) [] = omega arith
  count-take (suc n) (w ∷ ws) = ground (arith, count-take n ws)

  count-split :
      (f : WorkItem → Bool) (ws : List WorkItem)
      → count p (keep_if f ws) + count p (keep_if (λ w. not (f w)) ws) ≡ count p ws
  unfolding count
  count-split f [] = omega arith
  count-split f (w ∷ ws) = ground (arith, count-split f ws)

  count-insert_ranked :
      (score : WorkItem → ℕ) (w : WorkItem) (ws : List WorkItem)
      → count p (insert_ranked score w ws) ≡ count p (w ∷ ws)
  unfolding count insert_ranked
  count-insert_ranked score w [] = refl
  count-insert_ranked score w (v ∷ ws) = ground (arith, count-insert_ranked score w ws)

  count-rank : (score : WorkItem → ℕ) (ws : List WorkItem) → count p (rank score ws) ≡ count p ws
  unfolding count rank
  count-rank score [] = refl
  count-rank score (w ∷ ws) =
      ground (arith, count-insert_ranked score w (rank score ws), count-rank score ws)

  count-tie_break :
      (close : Option ℕ) (llm : Option (Option ℕ)) (score : WorkItem → ℕ) (ws : List WorkItem)
      → count p (tie_break close llm score ws) ≡ count p ws
  unfolding count tie_break llm_order
  count-tie_break none llm score ws = refl
  count-tie_break (some close) none score ws = refl
  count-tie_break (some close) (some answer) score [] = refl
  count-tie_break (some close) (some answer) score (a ∷ []) = refl
  count-tie_break (some close) (some none) score (a ∷ b ∷ ws) = ground arith
  count-tie_break (some close) (some (some i)) score (a ∷ b ∷ ws) = ground arith

  count_or_all :
      (kept rest : List WorkItem)
      → count p kept ≤ count p rest
      → count p (elim kept [ [] ↦ rest | w ∷ ws ↦ w ∷ ws ]) ≤ count p rest
  count_or_all [] rest le = omega arith
  count_or_all (w ∷ ws) rest le = le

  count-prune :
      (rules : List Rule) (ctx : Context) (ws : List WorkItem)
      → count p (prune rules ctx ws) ≤ count p ws
  unfolding prune
  count-prune rules ctx ws =
      count_or_all (keep_if (passes rules ctx) ws) ws (count-keep_if_le (passes rules ctx) ws)

  count-top : (limit : Option ℕ) (ws : List WorkItem) → count p (top limit ws) ≤ count p ws
  unfolding top
  count-top none ws = omega arith
  count-top (some k) ws = ground (arith, count-take k ws)

-- The runs that are not answers to a question, after the steps of the scheduler.
selected : Scheduler → Option (Option ℕ) → Context → List WorkItem → List WorkItem
selected s llm ctx rest =
    let score = λ (w : WorkItem). s.metric ctx w.agent w.event in
    top s.rank_limit (tie_break s.llm_tie_break llm score (rank score (prune s.rules ctx rest)))

count-selected :
    (p : WorkItem → Bool) (s : Scheduler) (llm : Option (Option ℕ)) (ctx : Context)
    (ws : List WorkItem)
    → count p (selected s llm ctx ws) ≤ count p ws
unfolding selected
count-selected p s llm ctx ws =
    let score = λ (w : WorkItem). s.metric ctx w.agent w.event in
    omega (
      arith,
      count-top p s.rank_limit
          (tie_break s.llm_tie_break llm score (rank score (prune s.rules ctx ws))),
      count-tie_break p s.llm_tie_break llm score (rank score (prune s.rules ctx ws)),
      count-rank p score (prune s.rules ctx ws),
      count-prune p s.rules ctx ws,
    )

-- No test is satisfied by more of the runs that `run` gives than of those that it was given: a run
-- that was not asked for is not made, and none is made twice.
run_within :
    (p : WorkItem → Bool) (s : Scheduler) (llm : Option (Option ℕ)) (ctx : Context)
    (work : List WorkItem)
    → count p (run s llm ctx work) ≤ count p work
unfolding run selected
run_within p s llm ctx work = elim (Bool-cases (leb (length work) 1)) [
  | inl few ↦ rw (few, run) (omega arith)
  | inr many ↦
      rw (many, run)
        (omega (
          arith,
          count-append p (keep_if (is_resume ctx) work)
              (selected s llm ctx (keep_if (λ w. not (is_resume ctx w)) work)),
          count-split p (is_resume ctx) work,
          count-selected p s llm ctx (keep_if (λ w. not (is_resume ctx w)) work),
        ))
]

count-keep_if_and :
    (p f : WorkItem → Bool) (ws : List WorkItem)
    → (count (λ w. p w && f w) (keep_if f ws) ≡ count (λ w. p w && f w) ws)
      × (count (λ w. p w && f w) (keep_if (λ w. not (f w)) ws) ≡ 0)
unfolding count
count-keep_if_and p f [] = (refl, refl)
count-keep_if_and p f (w ∷ ws) =
    let (kept, cut) = count-keep_if_and p f ws in (ground (arith, kept), ground (arith, cut))

-- No answer to a question is lost: of the runs on an answered question, as many satisfy any test
-- after `run` as before, whatever the rules, the scores, the model and the limit are.
pub run_resumed :
    (p : WorkItem → Bool) (s : Scheduler) (llm : Option (Option ℕ)) (ctx : Context)
    (work : List WorkItem)
    → count (λ w. p w && is_resume ctx w) (run s llm ctx work)
      ≡ count (λ w. p w && is_resume ctx w) work
unfolding run selected
run_resumed p s llm ctx work = elim (Bool-cases (leb (length work) 1)) [
  | inl few ↦ rw (few, run) refl
  | inr many ↦
      let asked = λ (w : WorkItem). p w && is_resume ctx w in
      rw (many, run)
        (omega (
          arith,
          count-append asked (keep_if (is_resume ctx) work)
              (selected s llm ctx (keep_if (λ w. not (is_resume ctx w)) work)),
          count-keep_if_and p (is_resume ctx) work,
          count-selected asked s llm ctx (keep_if (λ w. not (is_resume ctx w)) work),
        ))
]
