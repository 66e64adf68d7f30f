-- ===== src/Effects/Once.antt =====
-- A planned artifact whose id is derived is planned only once.
use Prim.Native.String.{◌++◌ as ◌⊕◌}
use text.Mathlib.TextLemmas.{append-eq-nil_iff}
use reactifact.Prelude.{
  ℕ, ◌+◌, String, ◌≡◌, refl, ap, sym, ◌∙◌, Bool, true, false, Option, none, some, List, [], ◌∷◌,
  ◌++◌, arith, ◌==◌, ◌⊎◌, inl, inr, Bool-cases, Option-cases, ==_iff, ==_refl, ◌||◌, string_eq,
}
use reactifact.Prelude.Dict.{Dict, lookup, insert, has, lookup-insert, lookup-remove}
use reactifact.Model.{Model, model_eq}
use reactifact.Artifact.{new, revise}
use reactifact.Operations
use reactifact.Operations.{Operation}
use reactifact.Context
use reactifact.Context.{Context, chosen_id, create_new, store_update, mark_stale, dependents_of}
use reactifact.Context.TypeIndex.{mark_stale_keeps}
use reactifact.Runtime.{apply_new, apply_op, apply_patch, credit}
use reactifact.Effects
use reactifact.Effects.{Planned, Handle}

-- Whether an operation takes an id away.
abbrev pub deletes : String → Operation → Bool
deletes i (Operations.delete j) = j == i
deletes i _ = false

abbrev pub IsKept : String → List Operation → Type 0
IsKept i [] = Unit
IsKept i (op ∷ ops) = (deletes i op ≡ false) × IsKept i ops

insert-has :
    {V : Type 0} (i k : String) (v : V) (d : Dict String V)
    → has i d ≡ true
    → has i (insert k v d) ≡ true
insert-has i k v d known = ground (arith, lookup-insert i k v d, known)

update-has :
    (aid : String) (d : Model) (ctx : Context) (i : String)
    → has i ctx.artifacts ≡ true
    → has i (Context.update aid d ctx).0.artifacts ≡ true
unfolding Context.update
update-has aid d ctx i known = elim (Option-cases (lookup aid ctx.artifacts)) [
  | inl e ↦ rw (e, Context.update) known
  | inr (a, e) ↦ elim (Bool-cases (a.data_ == d)) [
    | inl same ↦ rw (e, Context.update, same) known
    | inr moved ↦
        rw (e, Context.update, moved)
          (rw
            (mark_stale_keeps (dependents_of aid (store_update a aid d ctx))
              (store_update a aid d ctx)).0
            (unfold store_update in insert-has i aid (revise a d) ctx.artifacts known))
  ]
]

-- A new artifact comes into the store under its id, and nothing leaves the store.
abbrev stored_under : String → String → Model → Option String → Context → Context
stored_under fresh cid d given ctx =
    credit cid (create_new fresh d given ctx).1 (create_new fresh d given ctx).0

stored_under-has :
    (fresh cid : String) (d : Model) (given : Option String) (ctx : Context) (i : String)
    → (chosen_id fresh given == i) || has i ctx.artifacts ≡ true
    → has i (stored_under fresh cid d given ctx).artifacts ≡ true
unfolding credit create_new new
stored_under-has fresh cid d given ctx i known = ground (
  arith,
  lookup-insert i (chosen_id fresh given)
      (record (new d (chosen_id fresh given) none) { created_by_commit = some cid })
      (insert (chosen_id fresh given) (new d (chosen_id fresh given) none) ctx.artifacts),
  lookup-insert i (chosen_id fresh given) (new d (chosen_id fresh given) none) ctx.artifacts,
  known,
)

apply_new-has :
    (fresh cid : String) (d : Model) (given : Option String) (ctx : Context) (i : String)
    → has i ctx.artifacts ≡ true
    → has i (apply_new fresh cid d given ctx).context.artifacts ≡ true
unfolding apply_new Context.create credit
apply_new-has fresh cid d none ctx i known =
    stored_under-has fresh cid d none ctx i (ground (arith, known))
apply_new-has fresh cid d (some j) ctx i known = elim (Option-cases (lookup j ctx.artifacts)) [
  | inl e ↦
      rw (e, Context.create) (stored_under-has fresh cid d (some j) ctx i (ground (arith, known)))
  | inr (a, e) ↦
      rw (e, Context.create)
        (insert-has i a.id (record a { created_by_commit = some cid }) ctx.artifacts known)
]

apply_op-has :
    (fresh cid : String) (op : Operation) (ctx : Context) (i : String)
    → deletes i op ≡ false
    → has i ctx.artifacts ≡ true
    → has i (apply_op fresh cid op ctx).context.artifacts ≡ true
unfolding apply_op Context.get Context.delete
apply_op-has fresh cid (Operations.create d aid none) ctx i stays known =
    apply_new-has fresh cid d none ctx i known
apply_op-has fresh cid (Operations.create d aid (some j)) ctx i stays known =
    elim (Option-cases (lookup j ctx.artifacts)) [
      | inl e ↦ rw (e, apply_op) (apply_new-has fresh cid d (some j) ctx i known)
      | inr (a, e) ↦ rw (e, apply_op) (update-has j d ctx i known)
    ]
apply_op-has fresh cid (Operations.update j d) ctx i stays known = update-has j d ctx i known
apply_op-has fresh cid (Operations.delete j) ctx i stays known =
    elim (Option-cases (lookup j ctx.artifacts)) [
      | inl e ↦ rw (e, Context.delete) known
      | inr (a, e) ↦
          rw (e, Context.delete) (ground (arith, lookup-remove i j ctx.artifacts, known, stays))
    ]
apply_op-has fresh cid (Operations.link s r t) ctx i stays known = known
apply_op-has fresh cid (Operations.unlink s r t) ctx i stays known = known

apply_patch-has :
    (fresh : ℕ → String) (cid : String) (ops : List Operation) (ctx : Context) (i : String)
    → IsKept i ops
    → has i ctx.artifacts ≡ true
    → has i (apply_patch fresh cid ops ctx).context.artifacts ≡ true
unfolding apply_patch
apply_patch-has fresh cid [] ctx i stays known = known
apply_patch-has fresh cid (op ∷ ops) ctx i stays known =
    apply_patch-has (λ n. fresh (n + 1)) cid ops (apply_op (fresh 0) cid op ctx).context i stays.1
      (apply_op-has (fresh 0) cid op ctx i stays.0 known)

apply_new-creates :
    (fresh cid : String) (d : Model) (ctx : Context) (i : String)
    → (i == "") ≡ false
    → lookup i ctx.artifacts ≡ none
    → has i (apply_new fresh cid d (some i) ctx).context.artifacts ≡ true
unfolding apply_new Context.create
apply_new-creates fresh cid d ctx i named e =
    rw (e, Context.create)
      (stored_under-has fresh cid d (some i) ctx i
        (unfold chosen_id in ground (arith, named, ==_refl i)))

-- A planned creation comes into the store.
apply_op-creates :
    (fresh cid : String) (d : Model) (aid : Option String) (ctx : Context) (i : String)
    → (i == "") ≡ false
    → has i (apply_op fresh cid (Operations.create d aid (some i)) ctx).context.artifacts ≡ true
unfolding apply_op Context.get
apply_op-creates fresh cid d aid ctx i named = elim (Option-cases (lookup i ctx.artifacts)) [
  | inl e ↦ rw (e, apply_op) (apply_new-creates fresh cid d ctx i named e)
  | inr (a, e) ↦ rw (e, apply_op) (update-has i d ctx i (ground (arith, e)))
]

-- The operations hold a creation of the id.
abbrev pub Creates : String → List Operation → Type 0
Creates i [] = ⊥
Creates i (Operations.create d aid (some j) ∷ ops) = (j ≡ i) ⊎ Creates i ops
Creates i (op ∷ ops) = Creates i ops

apply_patch-Creates :
    (fresh : ℕ → String) (cid : String) (ops : List Operation) (ctx : Context) (i : String)
    → (i == "") ≡ false
    → IsKept i ops
    → Creates i ops
    → has i (apply_patch fresh cid ops ctx).context.artifacts ≡ true
unfolding apply_patch
apply_patch-Creates fresh cid [] ctx i named stays h = absurd h
apply_patch-Creates fresh cid (Operations.create d aid (some j) ∷ ops) ctx i named stays
      (inl same) =
    apply_patch-has (λ n. fresh (n + 1)) cid ops
      (apply_op (fresh 0) cid (Operations.create d aid (some j)) ctx).context i stays.1
      (ap
          (λ k.
            has k (apply_op (fresh 0) cid (Operations.create d aid (some j)) ctx).context.artifacts)
          (sym same)
        ∙ apply_op-creates (fresh 0) cid d aid ctx j (ap (λ k. k == "") same ∙ named))
apply_patch-Creates fresh cid (Operations.create d aid (some j) ∷ ops) ctx i named stays (inr h) =
    apply_patch-Creates (λ n. fresh (n + 1)) cid ops
      (apply_op (fresh 0) cid (Operations.create d aid (some j)) ctx).context i named stays.1 h
apply_patch-Creates fresh cid (Operations.create d aid none ∷ ops) ctx i named stays h =
    apply_patch-Creates (λ n. fresh (n + 1)) cid ops
      (apply_op (fresh 0) cid (Operations.create d aid none) ctx).context i named stays.1 h
apply_patch-Creates fresh cid (Operations.update j d ∷ ops) ctx i named stays h =
    apply_patch-Creates (λ n. fresh (n + 1)) cid ops
      (apply_op (fresh 0) cid (Operations.update j d) ctx).context i named stays.1 h
apply_patch-Creates fresh cid (Operations.delete j ∷ ops) ctx i named stays h =
    apply_patch-Creates (λ n. fresh (n + 1)) cid ops
      (apply_op (fresh 0) cid (Operations.delete j) ctx).context i named stays.1 h
apply_patch-Creates fresh cid (Operations.link s r t ∷ ops) ctx i named stays h =
    apply_patch-Creates (λ n. fresh (n + 1)) cid ops
      (apply_op (fresh 0) cid (Operations.link s r t) ctx).context i named stays.1 h
apply_patch-Creates fresh cid (Operations.unlink s r t ∷ ops) ctx i named stays h =
    apply_patch-Creates (λ n. fresh (n + 1)) cid ops
      (apply_op (fresh 0) cid (Operations.unlink s r t) ctx).context i named stays.1 h

append-Creates :
    (i : String) (ops later : List Operation) → Creates i ops → Creates i (ops ++ later)
append-Creates i (Operations.create d aid (some j) ∷ ops) later (inl same) = inl same
append-Creates i (Operations.create d aid (some j) ∷ ops) later (inr h) =
    inr (append-Creates i ops later h)
append-Creates i (Operations.create d aid none ∷ ops) later h = append-Creates i ops later h
append-Creates i (Operations.update j d ∷ ops) later h = append-Creates i ops later h
append-Creates i (Operations.delete j ∷ ops) later h = append-Creates i ops later h
append-Creates i (Operations.link s r t ∷ ops) later h = append-Creates i ops later h
append-Creates i (Operations.unlink s r t ∷ ops) later h = append-Creates i ops later h
append-Creates i [] later h = absurd h

last-Creates :
    (i : String) (d : Model) (ops : List Operation)
    → Creates i (ops ++ Operations.create d none (some i) ∷ [])
last-Creates i d [] = inl refl
last-Creates i d (Operations.create e aid (some j) ∷ ops) = inr (last-Creates i d ops)
last-Creates i d (Operations.create e aid none ∷ ops) = last-Creates i d ops
last-Creates i d (Operations.update j e ∷ ops) = last-Creates i d ops
last-Creates i d (Operations.delete j ∷ ops) = last-Creates i d ops
last-Creates i d (Operations.link s r t ∷ ops) = last-Creates i d ops
last-Creates i d (Operations.unlink s r t ∷ ops) = last-Creates i d ops

planned_has :
    (fresh : ℕ → String) (cid : String) (d : Model) (i : String) (ctx : Context)
    (before later : Planned)
    → (i == "") ≡ false
    → IsKept i ((Effects.create_once d i ctx before).0 ++ later)
    → has i
        (apply_patch fresh cid
          ((Effects.create_once d i ctx before).0 ++ later)
          ctx).context.artifacts
      ≡ true
unfolding Effects.create_once Effects.create Effects.add Context.get
planned_has fresh cid d i ctx before later named stays =
    elim (Option-cases (lookup i ctx.artifacts)) [
      | inl e ↦
          apply_patch-Creates fresh cid ((Effects.create_once d i ctx before).0 ++ later) ctx i
            named stays
            (append-Creates i (Effects.create_once d i ctx before).0 later
              (rw (e, Effects.create_once) (last-Creates i d before)))
      | inr (a, e) ↦
          apply_patch-has fresh cid ((Effects.create_once d i ctx before).0 ++ later) ctx i stays
            (ground (arith, e))
    ]

create_once_known :
    (d : Model) (i : String) (ctx : Context) (ops : Planned)
    → has i ctx.artifacts ≡ true
    → Effects.create_once d i ctx ops ≡ (ops, none)
unfolding Effects.create_once Context.get
create_once_known d i ctx ops known = elim (Option-cases (lookup i ctx.artifacts)) [
  | inl e ↦ absurd (ground (arith, e, known))
  | inr (a, e) ↦ rw (e, Effects.create_once) refl
]

-- Once a patch that holds what `create_once` planned is applied, whatever else it holds but a
-- deletion of the id, a later `create_once` of the id, with any data, plans nothing. The id is not
-- the empty text, for which the artifact gets another.
pub create_once-idempotent :
    (fresh : ℕ → String) (cid : String) (d d' : Model) (i : String) (ctx : Context)
    (before later again : Planned)
    → (i == "") ≡ false
    → IsKept i ((Effects.create_once d i ctx before).0 ++ later)
    → Effects.create_once d' i
        (apply_patch fresh cid ((Effects.create_once d i ctx before).0 ++ later) ctx).context
        again
      ≡ (again, none)
create_once-idempotent fresh cid d d' i ctx before later again named stays =
    create_once_known d' i
      (apply_patch fresh cid ((Effects.create_once d i ctx before).0 ++ later) ctx).context again
      (planned_has fresh cid d i ctx before later named stays)

abbrev word : String
word = "action:"

named_action : (key : String) → (("action:" ⊕ key) == "") ≡ false
named_action key = elim (Bool-cases (("action:" ⊕ key) == "")) [
  | inl e ↦ absurd (action_text (append-eq-nil_iff.0 ((==_iff ("action:" ⊕ key) "").0 e)).0)
  | inr e ↦ e
]
  where
    action_text : (word ≡ "") → ⊥
    action_text e = ground (arith, ==_iff word "", e)

-- The outbox: once the patch of a produce that recorded the intent of an action under a key is
-- applied, and as long as nothing in it deletes the action, recording an intent under the same key,
-- whatever its kind and payload, plans nothing.
pub act-idempotent :
    (fresh : ℕ → String) (cid kind kind' key payload payload' : String) (ctx : Context)
    (before later again : Planned)
    → IsKept ("action:" ⊕ key) ((Effects.act kind key payload none ctx before).0 ++ later)
    → Effects.act kind' key payload' none
        (apply_patch fresh cid
          ((Effects.act kind key payload none ctx before).0 ++ later)
          ctx).context
        again
      ≡ (again, none)
unfolding Effects.act
act-idempotent fresh cid kind kind' key payload payload' ctx before later again stays =
    create_once-idempotent fresh cid _ _ ("action:" ⊕ key) ctx before later again (named_action key)
      stays
