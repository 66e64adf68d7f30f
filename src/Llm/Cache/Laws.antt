-- ===== src/Llm/Cache/Laws.antt =====
-- What `CachingLLM` answers and what it asks.
use mathlib.Core.List.{Mem, mem-cons_self, mem-cons_of_mem}
use reactifact.Prelude.{
  String, ◌≡◌, refl, ap, ◌∙◌, none, some, List, [], ◌∷◌, arith, inl, inr, Option-cases, ==_refl,
  ==_iff, string_eq,
}
use reactifact.Prelude.Dict.{lookup, insert, has, lookup-insert}
use reactifact.Prelude.Sets.{contains, IsOnce}
use reactifact.Json.{Json}
use reactifact.Result.{Result, ok, err, Result-cases}
use reactifact.Llm.{Request, Response, Llm}
use reactifact.Llm.Calls.{Call, Behaviour, observed, run}
use reactifact.Llm.Cache.{
  Stored, Store, to_stored, from_stored, key_of, keep_reply, complete, caching_llm,
}

module _ (digest : Json → String) (str : Json → String) (model : String) where
  abbrev key : Request → String
  key q = key_of digest str model q

  -- The responses that the provider gave, under their keys.
  abbrev pub stored_of : List Call → Store
  stored_of [] = []
  stored_of (c ∷ cs) = elim c.reply [
    | err why ↦ stored_of cs
    | ok r ↦ insert (key c.request) (to_stored r) (stored_of cs)
  ]

  -- The keys of the calls that the provider answered.
  abbrev pub answered : List Call → List String
  answered [] = []
  answered (c ∷ cs) = elim c.reply [ err why ↦ answered cs | ok r ↦ key c.request ∷ answered cs ]

  -- A reply is a stored one, or an error that the provider raised on that request.
  abbrev pub IsBacked : Store × List Call → Request → Result Response → Type 0
  IsBacked (cache, calls) q (ok r) = lookup (key q) cache ≡ some (to_stored r)
  IsBacked (cache, calls) q (err why) = Mem (record { request = q; reply = err why }) calls

  abbrev pub AllBacked : Store × List Call → List Request → List (Result Response) → Type 0
  AllBacked s [] [] = Unit
  AllBacked s (q ∷ qs) (r ∷ rs) = IsBacked s q r × AllBacked s qs rs
  AllBacked s _ _ = ⊥

  pub record IsCached (s : Store × List Call) : Type 0 where
    pub stored : s.0 ≡ stored_of s.1
    pub once : IsOnce (answered s.1)

  contains-answered :
      (k : String) (cs : List Call) → contains k (answered cs) ≡ has k (stored_of cs)
  unfolding contains lookup
  contains-answered k [] = refl
  contains-answered k (c ∷ cs) = elim (Result-cases c.reply) [
    | inl (r, e) ↦ ground (
      arith,
      e,
      contains-answered k cs,
      lookup-insert k (key c.request) (to_stored r) (stored_of cs),
    )
    | inr (why, e) ↦ ground (arith, e, contains-answered k cs)
  ]

  -- What a later state keeps of an earlier one.
  record Extends (s s' : Store × List Call) : Type 0 where
    keeps : (k : String) (v : Stored) → lookup k s.0 ≡ some v → lookup k s'.0 ≡ some v
    called : (c : Call) → Mem c s.1 → Mem c s'.1

  module _ (b : Behaviour) where
    abbrev inner : Llm (List Call)
    inner = observed model b

    record Step (q : Request) (s s' : Store × List Call) (r : Result Response) : Type 0 where
      cached : IsCached s'
      backed : IsBacked s' q r
      extends : Extends s s'

    keep_reply-Step :
        (q : Request) (s : Store × List Call) (r : Result Response)
        → lookup (key q) s.0 ≡ none
        → IsCached s
        → Step q s
            (keep_reply (key q) s.0 (record { request = q; reply = r } ∷ s.1) r).0
            (keep_reply (key q) s.0 (record { request = q; reply = r } ∷ s.1) r).1
    unfolding keep_reply
    keep_reply-Step q s (err why) unknown h = record {
      cached = record { stored = h.stored; once = h.once };
      backed = mem-cons_self;
      extends = record { keeps = λ k v known. known; called = λ c m. mem-cons_of_mem _ m };
    }
    keep_reply-Step q s (ok r) unknown h = record {
      cached = record {
        stored = ap (insert (key q) (to_stored r)) h.stored;
        once = (contains-answered (key q) s.1 ∙ rw⁻¹ h.stored (ground (arith, unknown)), h.once);
      };
      backed = lookup-insert (key q) (key q) (to_stored r) s.0 ∙ rw (==_refl (key q)) refl;
      extends = record {
        keeps = λ k v known.
            ground
              (arith, lookup-insert k (key q) (to_stored r) s.0, known, unknown, ==_iff (key q) k);
        called = λ c m. mem-cons_of_mem _ m;
      };
    }

    complete-Step :
        (q : Request) (s : Store × List Call)
        → IsCached s
        → Step q s (complete digest str inner q s).0 (complete digest str inner q s).1
    unfolding complete from_stored to_stored
    complete-Step q s h = elim (Option-cases (lookup (key q) s.0)) [
      | inl unknown ↦ rw (unknown, complete) (keep_reply-Step q s (b s.1 q) unknown h)
      | inr (v, known) ↦
          rw (known, complete)
            (record {
              cached = h;
              backed = known;
              extends = record { keeps = λ k w e. e; called = λ c m. m };
            })
    ]

    extended :
        (s s' : Store × List Call) (q : Request) (r : Result Response)
        → Extends s s'
        → IsBacked s q r
        → IsBacked s' q r
    extended s s' q (ok r) x h = x.keeps (key q) (to_stored r) h
    extended s s' q (err why) x h = x.called (record { request = q; reply = err why }) h

    started-run :
        (qs : List Request) (s : Store × List Call)
        → IsCached s
        → IsCached (run (caching_llm digest str inner) qs s).0
          × Extends s (run (caching_llm digest str inner) qs s).0
          × AllBacked
              (run (caching_llm digest str inner) qs s).0
              qs
              (run (caching_llm digest str inner) qs s).1
    unfolding caching_llm
    started-run [] s h = (h, record { keeps = λ k v e. e; called = λ c m. m }, tt)
    started-run (q ∷ qs) s h =
        let first = complete-Step q s h in
        let s' = (complete digest str inner q s).0 in
        let (cached, later, backed) = started-run qs s' first.cached in
        let final = (run (caching_llm digest str inner) qs s').0 in
        (
          cached,
          record {
            keeps = λ k v e. later.keeps k v (first.extends.keeps k v e);
            called = λ c m. later.called c (first.extends.called c m);
          },
          (extended s' final q (complete digest str inner q s).1 later first.backed, backed),
        )

-- Over any sequence of requests and any provider, whatever its replies depend on: the cache holds
-- the responses that the provider gave under their keys, no key was answered by it twice, and each
-- reply that is returned has the text, the finish reason and the usage of the answer to its key, or
-- is an error that the provider raised on that request.
pub run-caching_llm :
    (digest : Json → String) (str : Json → String) (model : String) (b : Behaviour)
    (qs : List Request)
    → ((run (caching_llm digest str (observed model b)) qs ([], [])).0.0
        ≡ stored_of digest str model
            (run (caching_llm digest str (observed model b)) qs ([], [])).0.1)
      × IsOnce (
          answered digest str model
            (run (caching_llm digest str (observed model b)) qs ([], [])).0.1)
      × AllBacked digest str model
          (run (caching_llm digest str (observed model b)) qs ([], [])).0
          qs
          (run (caching_llm digest str (observed model b)) qs ([], [])).1
run-caching_llm digest str model b qs =
    let (cached, later, backed) =
      started-run digest str model b qs ([], []) (record { stored = refl; once = tt }) in
    (cached.stored, cached.once, backed)
