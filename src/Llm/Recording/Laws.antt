-- ===== src/Llm/Recording/Laws.antt =====
-- What a replay of a recorded run answers.
use reactifact.Prelude.{
  String, ◌≡◌, refl, sym, ap, ◌∙◌, Option, none, some, List, [], ◌∷◌, ◌++◌, map, arith, ◌==◌, ◌⊎◌,
  inl, inr, Option-cases, Bool-cases, ==_iff, if◌then◌else◌, string_eq,
}
use reactifact.Prelude.Dict.{Dict, lookup, insert, lookup-insert}
use mathlib.Core.Option
use reactifact.Json.{Json, num, as_num, text_at, optional_text_at, item, item_or, find}
use reactifact.Result.{Result, ok, err, replay_miss, Result-cases, >>=-eq-ok, ◌>>=◌}
use reactifact.Llm.{Request, Response, no_raw, Llm}
use reactifact.Llm.Calls.{Call, Behaviour, observed, run}
use reactifact.Llm.Recording.{
  load_from, load, respond, request_key, entry_at, entry_of, usage_of, append, replay,
  recording_llm, replaying_llm,
}
use reactifact.Llm.Recording.Lines.{
  Text, newline, IsUnbroken, AllUnbroken, joined, splitlines-joined, joined-append,
  AllUnbroken-append,
}
use reactifact.Json.Lists.{optional_text_reads_back, read_fields-fields_of, ReadsBackValues-all}

-- What a replay gives for a response: the raw value of the provider is not recorded.
abbrev pub replayed : Result Response → Result Response
replayed (err why) = err replay_miss
replayed (ok r) = ok (record r { raw = no_raw })

text_lines-append :
    (loads : Text → Result Json) (ls : List Text) (line : Text) (entry : Json) (key : String)
    (cache after : Dict String Json)
    → load_from loads ls cache ≡ ok after
    → loads line ≡ ok entry
    → text_at "key" entry ≡ ok key
    → load_from loads (ls ++ line ∷ []) cache ≡ ok (insert key entry after)
unfolding load_from
text_lines-append loads [] line entry key cache after e read named =
    let same : cache ≡ after = cc e in rw (read, named, same) refl
text_lines-append loads (l ∷ ls) line entry key cache after e read named =
    let (first, f, rest) = >>=-eq-ok (loads l) _ e in
    let (k, g, tail) = >>=-eq-ok (text_at "key" first) _ rest in
    rw (f, g)
      (text_lines-append loads ls line entry key (insert k first cache) after tail read named)

entry_at-key : (model key : String) (r : Response) → text_at "key" (entry_at model key r) ≡ ok key
unfolding text_at item find entry_at
entry_at-key model key r = refl

-- An entry answers with the response that it was made of, less the raw value.
respond-entry_at :
    (model key : String) (r : Response)
    → respond (entry_at model key r) ≡ ok (record r { raw = no_raw })
unfolding respond item item_or find text_at optional_text_at entry_at usage_of
respond-entry_at model key r =
    rw
      (
        optional_text_reads_back r.finish_reason,
        read_fields-fields_of num as_num r.usage
            (ReadsBackValues-all num as_num (λ n. refl) r.usage),
      )
      refl

module _ (digest : Json → String) (dumps : Json → Text) (loads : Text → Result Json)
    (model : String) where
  abbrev key : Request → String
  key q = request_key digest model q

  -- The last response under a key; the calls stand newest first.
  abbrev pub latest : String → List Call → Option Response
  latest k [] = none
  latest k (c ∷ cs) = elim c.reply [
    | err why ↦ latest k cs
    | ok r ↦ if key c.request == k then some r else latest k cs
  ]

  abbrev pub answer_of : Option Response → Result Response
  answer_of none = err replay_miss
  answer_of (some r) = replayed (ok r)

  module _ (b : Behaviour) where
    abbrev recorder : Llm (Text × List Call)
    recorder = recording_llm digest dumps model (observed model b)

    abbrev after : Request → Text × List Call → Text × List Call
    after q s =
        (append digest dumps model q (b s.1 q) s.0, record { request = q; reply = b s.1 q } ∷ s.1)

    -- What is written for a reply of the provider is one line, which is read back.
    abbrev pub IsLegible : Type 0
    IsLegible =
        (cs : List Call) (q : Request) (r : Response)
        → b cs q ≡ ok r
        → IsUnbroken (dumps (entry_of digest model q r))
          × (loads (dumps (entry_of digest model q r)) ≡ ok (entry_of digest model q r))

    -- The lines of the file hold under each key an entry for the last response.
    record IsRecorded (s : Text × List Call) : Type 0 where
      lines : List Text
      cache : Dict String Json
      written : s.0 ≡ joined lines
      unbroken : AllUnbroken lines
      loaded : load_from loads lines [] ≡ ok cache
      held : (k : String) → lookup k cache ≡ Option.map (entry_at model k) (latest k s.1)

    IsRecorded-replay :
        (s : Text × List Call) (q : Request)
        → IsRecorded s
        → replay digest loads model s.0 q ≡ answer_of (latest (key q) s.1)
    unfolding replay load
    IsRecorded-replay s q h =
        rw
          (h.written, splitlines-joined h.lines h.unbroken, h.loaded, ◌>>=◌, h.held (key q), replay)
          (found (latest (key q) s.1))
      where
        found :
            (o : Option Response)
            → (elim (Option.map (entry_at model (key q)) o) as (λ x. Result Response) [
              | none ↦ err replay_miss
              | some entry ↦ respond entry
            ])
              ≡ answer_of o
        found none = refl
        found (some r) = respond-entry_at model (key q) r

    append-IsRecorded :
        (q : Request) (r : Result Response) (file : Text) (calls : List Call)
        → ((a : Response)
            → r ≡ ok a
            → IsUnbroken (dumps (entry_of digest model q a))
              × (loads (dumps (entry_of digest model q a)) ≡ ok (entry_of digest model q a)))
        → IsRecorded (file, calls)
        → IsRecorded (append digest dumps model q r file, record { request = q; reply = r } ∷ calls)
    unfolding append entry_of
    append-IsRecorded q (err why) file calls fine h = record {
      lines = h.lines;
      cache = h.cache;
      written = h.written;
      unbroken = h.unbroken;
      loaded = h.loaded;
      held = h.held;
    }
    append-IsRecorded q (ok r) file calls fine h =
        let line = dumps (entry_of digest model q r) in
        let (whole, read) = fine r refl in
        record {
          lines = h.lines ++ line ∷ [];
          cache = insert (key q) (entry_at model (key q) r) h.cache;
          written = ap (λ t. t ++ (line ++ newline ∷ [])) h.written ∙ joined-append h.lines line;
          unbroken = AllUnbroken-append h.lines line h.unbroken whole;
          loaded =
              text_lines-append loads h.lines line (entry_at model (key q) r) (key q) [] h.cache
                h.loaded read (entry_at-key model (key q) r);
          held = λ k.
              lookup-insert k (key q) (entry_at model (key q) r) h.cache
              ∙ elim (Bool-cases (key q == k)) [
                | inl same ↦
                    rw same (ap (λ x. some (entry_at model x r)) ((==_iff (key q) k).0 same))
                | inr other ↦ rw other (h.held k)
              ];
        }

    run-IsRecorded :
        IsLegible
        → (qs : List Request) (s : Text × List Call) → IsRecorded s
        → IsRecorded (run recorder qs s).0
    unfolding recording_llm
    run-IsRecorded fine [] s h = h
    run-IsRecorded fine (q ∷ qs) s h =
        run-IsRecorded fine qs (after q s)
          (append-IsRecorded q (b s.1 q) s.0 s.1 (λ r e. fine s.1 q r e) h)

    start-IsRecorded : IsRecorded ([], [])
    unfolding load_from lookup
    start-IsRecorded = record {
      lines = [];
      cache = [];
      written = refl;
      unbroken = tt;
      loaded = refl;
      held = λ k. refl;
    }

    -- The replies depend on nothing but the key.
    abbrev pub IsSteady : Type 0
    IsSteady = (cs cs' : List Call) (q p : Request) → key q ≡ key p → b cs q ≡ b cs' p

    abbrev AllSteady : List Call → Type 0
    AllSteady [] = Unit
    AllSteady (c ∷ cs) = (c.reply ≡ b [] c.request) × AllSteady cs

    abbrev Asked : Request → List Call → Type 0
    Asked q [] = ⊥
    Asked q (c ∷ cs) = (c.request ≡ q) ⊎ Asked q cs

    latest_ok :
        (q : Request) (r : Response) (cs : List Call)
        → IsSteady
        → AllSteady cs
        → latest (key q) cs ≡ some r
        → b [] q ≡ ok r
    latest_ok q r [] steady all e = cc
    latest_ok q r (c ∷ cs) steady all e = elim (Result-cases c.reply) [
      | inl (a, answered) ↦ elim (Bool-cases (key c.request == key q)) [
        | inl same ↦
            let alike = steady [] [] c.request q ((==_iff (key c.request) (key q)).0 same) in
            ground (arith, alike, all.0, answered, e, same)
        | inr other ↦ latest_ok q r cs steady all.1 (ground (arith, answered, other, e))
      ]
      | inr (why, raised) ↦ latest_ok q r cs steady all.1 (ground (arith, raised, e))
    ]

    latest_found :
        (q : Request) (r : Response) (cs : List Call)
        → IsSteady
        → AllSteady cs
        → Asked q cs
        → b [] q ≡ ok r
        → latest (key q) cs ≡ some r
    latest_found q r [] steady all asked e = elim asked [ ]
    latest_found q r (c ∷ cs) steady all asked e = elim (Result-cases c.reply) [
      | inl (a, answered) ↦ elim (Bool-cases (key c.request == key q)) [
        | inl same ↦
            let alike = steady [] [] c.request q ((==_iff (key c.request) (key q)).0 same) in
            ground (arith, alike, all.0, answered, e, same)
        | inr other ↦ elim asked [
          | inl this ↦ absurd (ground (arith, ap key this, other, ==_iff (key c.request) (key q)))
          | inr before ↦ ground (arith, latest_found q r cs steady all.1 before e, answered, other)
        ]
      ]
      | inr (why, raised) ↦ elim asked [
        | inl this ↦ absurd (ground (arith, ap (b []) this, all.0, raised, e))
        | inr before ↦ ground (arith, latest_found q r cs steady all.1 before e, raised)
      ]
    ]

    latest-replayed :
        (q : Request) (cs : List Call)
        → IsSteady
        → AllSteady cs
        → Asked q cs
        → answer_of (latest (key q) cs) ≡ replayed (b [] q)
    latest-replayed q cs steady all asked = elim (Result-cases (b [] q)) [
      | inl (r, e) ↦ ap answer_of (latest_found q r cs steady all asked e) ∙ ap replayed (sym e)
      | inr (why, e) ↦ elim (Option-cases (latest (key q) cs)) [
        | inl none_ ↦ ap answer_of none_ ∙ ap replayed (sym e)
        | inr (r, some_) ↦ absurd (ground (arith, latest_ok q r cs steady all some_, e))
      ]
    ]

    abbrev AllAsked : List Request → List Call → Type 0
    AllAsked [] cs = Unit
    AllAsked (q ∷ qs) cs = Asked q cs × AllAsked qs cs

    module _ (steady : IsSteady) where
      run-AllSteady :
          (qs : List Request) (s : Text × List Call)
          → AllSteady s.1
          → AllSteady (run recorder qs s).0.1
      unfolding recording_llm
      run-AllSteady [] s h = h
      run-AllSteady (q ∷ qs) s h = run-AllSteady qs (after q s) (steady s.1 [] q q refl, h)

      run-Asked :
          (p : Request) (qs : List Request) (s : Text × List Call)
          → Asked p s.1
          → Asked p (run recorder qs s).0.1
      unfolding recording_llm
      run-Asked p [] s h = h
      run-Asked p (q ∷ qs) s h = run-Asked p qs (after q s) (inr h)

      run-AllAsked :
          (qs : List Request) (s : Text × List Call) → AllAsked qs (run recorder qs s).0.1
      unfolding recording_llm
      run-AllAsked [] s = tt
      run-AllAsked (q ∷ qs) s =
          let s' : Text × List Call = after q s in
          (run-Asked q qs s' (inl refl), run-AllAsked qs s')

      run-replies :
          (qs : List Request) (s : Text × List Call) → (run recorder qs s).1 ≡ map (b []) qs
      unfolding recording_llm
      run-replies [] s = refl
      run-replies (q ∷ qs) s =
          let s' : Text × List Call = after q s in
          ground (arith, steady s.1 [] q q refl, run-replies qs s')

      replay_all :
          (qs : List Request) (s : Text × List Call)
          → IsRecorded s
          → AllSteady s.1
          → AllAsked qs s.1
          → run (replaying_llm digest loads model) qs s.0 ≡ (s.0, map replayed (map (b []) qs))
      unfolding replaying_llm
      replay_all [] s h all asked = refl
      replay_all (q ∷ qs) s h all asked = ground (
        arith,
        replay_all qs s h all asked.1,
        IsRecorded-replay s q h,
        latest-replayed q s.1 steady all asked.0,
      )

module _ (digest : Json → String) (dumps : Json → Text) (loads : Text → Result Json)
    (model : String) (b : Behaviour) (fine : IsLegible digest dumps loads model b)
    (qs : List Request) where
  abbrev recorded : Text × List Call
  recorded = (run (recording_llm digest dumps model (observed model b)) qs ([], [])).0

  recorded-IsRecorded : IsRecorded digest dumps loads model b recorded
  recorded-IsRecorded =
      run-IsRecorded digest dumps loads model b fine qs ([], [])
        (start-IsRecorded digest dumps loads model b)

  -- A request is replayed with the last response that was recorded under its key, less the raw
  -- value, and raises ReplayMiss if there is none, whatever the replies of the provider depended on.
  pub replay-run :
      (q : Request)
      → replay digest loads model recorded.0 q
        ≡ answer_of digest dumps loads model
            (latest digest dumps loads model (request_key digest model q) recorded.1)
  replay-run q = IsRecorded-replay digest dumps loads model b recorded q recorded-IsRecorded

  -- If what is written for each reply of the provider is one line, which is read back, and the
  -- replies depend on nothing but the key of the request, a replay of the same requests in the same
  -- order from the text of the file gives what the recorded run gave, less the raw values, and
  -- raises ReplayMiss where that run raised.
  pub run-replaying_llm :
      IsSteady digest dumps loads model b
      → (run
          (replaying_llm digest loads model)
          qs
          (run (recording_llm digest dumps model (observed model b)) qs ([], [])).0.0).1
        ≡ map replayed (run (recording_llm digest dumps model (observed model b)) qs ([], [])).1
  run-replaying_llm steady =
      ap (λ s. s.1)
        (replay_all digest dumps loads model b steady qs recorded recorded-IsRecorded
          (run-AllSteady digest dumps loads model b steady qs ([], []) tt)
          (run-AllAsked digest dumps loads model b steady qs ([], [])))
      ∙ ap (map replayed) (sym (run-replies digest dumps loads model b steady qs ([], [])))
