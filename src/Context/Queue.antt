-- ===== src/Context/Queue.antt =====
-- reactifact/context.py: the event queue as a turn consumes it.
use reactifact.Prelude.{
  ℕ, ◌≡◌, refl, true, false, List, [], ◌∷◌, ◌++◌, arith, string_eq, nat_eq, ◌∙◌, ap, ==_refl,
}
use reactifact.Prelude.Sets.{contains}
use reactifact.Context.State.{Context, Event}
use reactifact.Context.Inbox.{idents, unconsumed, consume_events}

-- No event of the list has the identity of one of the consumed.
abbrev IsFresh : List ℕ → List Event → Type 0
IsFresh consumed [] = Unit
IsFresh consumed (e ∷ es) = (contains e.ident consumed ≡ false) × IsFresh consumed es

unconsumed-append :
    (consumed : List ℕ) (es fs : List Event)
    → unconsumed consumed (es ++ fs) ≡ unconsumed consumed es ++ unconsumed consumed fs
unfolding unconsumed
unconsumed-append consumed [] fs = refl
unconsumed-append consumed (e ∷ es) fs = ground (arith, unconsumed-append consumed es fs)

unconsumed_fresh :
    (consumed : List ℕ) (es : List Event) → IsFresh consumed es → unconsumed consumed es ≡ es
unfolding unconsumed
unconsumed_fresh consumed [] h = refl
unconsumed_fresh consumed (e ∷ es) h = ground (arith, h.0, unconsumed_fresh consumed es h.1)

unconsumed_covered :
    (consumed : List ℕ) (es : List Event)
    → ((i : ℕ) → contains i (idents es) ≡ true → contains i consumed ≡ true)
    → unconsumed consumed es ≡ []
unfolding unconsumed contains
unconsumed_covered consumed [] covered = refl
unconsumed_covered consumed (e ∷ es) covered = ground (
  arith,
  covered e.ident (ground (arith, ==_refl e.ident)),
  unconsumed_covered consumed es (λ i h. covered i (ground (arith, h))),
)

-- Consuming the events at the head of the queue leaves those that came in behind them, in their
-- order, if these are other events.
consume_events_later :
    (consumed later : List Event) (ctx : Context)
    → ctx.events ≡ consumed ++ later
    → IsFresh (idents consumed) later
    → (consume_events consumed ctx).events ≡ later
unfolding consume_events
consume_events_later [] later ctx e fresh = e
consume_events_later (c ∷ consumed) later ctx e fresh =
    ap (unconsumed (idents (c ∷ consumed))) e
    ∙ unconsumed-append (idents (c ∷ consumed)) (c ∷ consumed) later
    ∙ ap (λ es. es ++ unconsumed (idents (c ∷ consumed)) later)
        (unconsumed_covered (idents (c ∷ consumed)) (c ∷ consumed) (λ i h. h))
    ∙ unconsumed_fresh (idents (c ∷ consumed)) later fresh
