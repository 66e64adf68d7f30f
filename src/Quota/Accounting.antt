-- ===== src/Quota/Accounting.antt =====
-- reactifact/quota.py: usage is counted within the open window and never outlives it.
use reactifact.Prelude.{
  ℕ, String, ◌≡◌, refl, false, none, some, arith, if◌then◌else◌, inl, inr, string_eq, Bool-cases,
  Option-cases, ◌==◌, ==_refl, ap, ◌∙◌,
}
use reactifact.Prelude.Dict.{lookup, lookup-insert}
use reactifact.Quota.{
  Quota, Usage, no_usage, Window, Store, expired, window, over_limit, exceeded, add_usage,
  record_usage,
}

-- The usage that counts for a key at a time: that of its window unless it has expired.
pub counted : Quota → String → ℕ → Store → Usage
counted q key now st = elim (lookup key st) [
  | none ↦ no_usage
  | some w ↦ if expired q now w then no_usage else w.usage
]

window_counted :
    (q : Quota) (key : String) (now : ℕ) (st : Store)
    → (window q key now st).1.usage ≡ counted q key now st
unfolding window counted
window_counted q key now st = elim (Option-cases (lookup key st)) [
  | inl e ↦ rw (e, window, counted) refl
  | inr (w, e) ↦ elim (Bool-cases (expired q now w)) [
    | inl old ↦ rw (e, old, window, counted) refl
    | inr open_ ↦ rw (e, open_, window, counted) refl
  ]
]

-- The store after a query of the window holds what it gave.
window_stored :
    (q : Quota) (key other : String) (now : ℕ) (st : Store)
    → lookup other (window q key now st).0
      ≡ (if key == other then some (window q key now st).1 else lookup other st)
unfolding window
window_stored q key other now st = elim (Option-cases (lookup key st)) [
  | inl e ↦ rw (e, window) (lookup-insert other key _ st)
  | inr (w, e) ↦ elim (Bool-cases (expired q now w)) [
    | inl old ↦ rw (e, old, window) (lookup-insert other key _ st)
    | inr open_ ↦ rw (e, open_, window) (ground (arith, e, string_eq.beq_iff key other))
  ]
]

-- What `record` leaves in the window of the key.
abbrev grown : ℕ → ℕ → ℕ → Window → Window
grown tokens cost calls w = record w { usage = add_usage tokens cost calls w.usage }

recorded :
    (q : Quota) (key other : String) (now tokens cost calls : ℕ) (st : Store)
    → lookup other (record_usage q key now tokens cost calls st) ≡ (
        if key == other
        then some (grown tokens cost calls (window q key now st).1)
        else lookup other st)
unfolding record_usage
recorded q key other now tokens cost calls st = ground (
  arith,
  lookup-insert other key (grown tokens cost calls (window q key now st).1) (window q key now st).0,
  window_stored q key other now st,
)

-- What counts at a time at which the window that holds the usage has not expired.
counted_open :
    (q : Quota) (key : String) (later tokens cost calls : ℕ) (w : Window) (st : Store)
    → lookup key st ≡ some (grown tokens cost calls w)
    → expired q later w ≡ false
    → counted q key later st ≡ add_usage tokens cost calls w.usage
unfolding counted expired
counted_open q key later tokens cost calls w st e open_ = elim (Option-cases q.window_seconds) [
  | inl n ↦ rw (e, n, counted) refl
  | inr (s, n) ↦ rw (e, n, counted) (ground arith)
]

-- What is recorded comes on top of what counted at that time, and is what counts at a later time
-- at which the window has not expired. The window is the one that was open, and the other keys
-- keep theirs.
pub record_usage_lem :
    (q : Quota) (key other : String) (now later tokens cost calls : ℕ) (st : Store)
    → expired q later (window q key now st).1 ≡ false
    → (key == other) ≡ false
    → (counted q key later (record_usage q key now tokens cost calls st)
        ≡ add_usage tokens cost calls (counted q key now st))
      × ((exceeded q key later (record_usage q key now tokens cost calls st)).1
          ≡ over_limit q (add_usage tokens cost calls (counted q key now st)))
      × (lookup other (record_usage q key now tokens cost calls st) ≡ lookup other st)
unfolding exceeded
record_usage_lem q key other now later tokens cost calls st open_ apart =
    let stored = recorded q key key now tokens cost calls st ∙ rw (==_refl key) refl in
    let used =
      counted_open q key later tokens cost calls (window q key now st).1
        (record_usage q key now tokens cost calls st) stored open_
      ∙ ap (add_usage tokens cost calls) (window_counted q key now st) in
    (
      used,
      ap (over_limit q)
          (window_counted q key later (record_usage q key now tokens cost calls st) ∙ used),
      recorded q key other now tokens cost calls st ∙ rw apart refl,
    )
