-- ===== src/Persistence/Isolation.antt =====
-- Sessions do not meet: a save under one id leaves the others as they were.
use reactifact.Prelude.{
  ℕ, String, ◌≡◌, refl, ◌∙◌, ap, false, Option, ◌==◌, string_eq, Bool-cases, Option-cases, sym, inl,
  inr, ◌⊎◌,
}
use reactifact.Prelude.Dict.{Dict}
use reactifact.Json.{Json}
use reactifact.Codec.{Schema, context_to_dict}
use reactifact.Persistence.Backends.{KvBackend, AppendBackend}
use reactifact.Persistence.Save.{Live, snapshot_due, write_snapshot, save_append, save_blob}
use reactifact.Persistence.Load.{load_append, load_append_stored}
use reactifact.Persistence.Sessions.{
  StoreBackend, blob, appending, SessionStore, from_kv, save_session, load_session,
}

Backend-cases :
    {St : Type 0} (b : StoreBackend St)
    → ((k : KvBackend St) × (b ≡ blob k)) ⊎ ((a : AppendBackend St) × (b ≡ appending a))
Backend-cases (blob k) = inl (k, refl)
Backend-cases (appending a) = inr (a, refl)

module _ {St : Type 0} (s : Schema) (migrations : Dict ℕ (Json → Json)) where
  load_append_same :
      (b : AppendBackend St) (j : String) (st st' : St)
      → b.kv.get j st' ≡ b.kv.get j st
      → b.entries j st' ≡ b.entries j st
      → load_append s migrations b j st' ≡ load_append s migrations b j st
  unfolding load_append
  load_append_same b j st st' e es = elim (Option-cases (b.kv.get j st)) [
    | inl g ↦ rw (load_append, e, g)
    | inr (d, g) ↦
        load_append_stored s migrations b j st' d (b.entries j st) (e ∙ g) es
        ∙ sym (load_append_stored s migrations b j st d (b.entries j st) g refl)
  ]

  save_append_elsewhere :
      (b : AppendBackend St) (every : Option ℕ) (key j : String) (x : Live) (st : St)
      → (key == j) ≡ false
      → load_append s migrations b j (save_append s b every key x st).1
        ≡ load_append s migrations b j st
  unfolding save_append
  save_append_elsewhere b every key j x st apart =
      let d = context_to_dict s x.branch in
      elim (Bool-cases (snapshot_due s b every key x st)) [
        | inl due ↦ rw due (
            load_append_same b j st (write_snapshot s b key x.branch st)
              (b.get-clear_entries j key (b.kv.set key d st) ∙ b.kv.get-set j key d st ∙ rw apart)
              (b.entries-clear_entries j key (b.kv.set key d st)
                ∙ rw apart (b.entries-set j key d st)))
        | inr none_due ↦ rw none_due (
            load_append_same b j st _ (b.get-append j key _ st)
              (b.entries-append j key _ st ∙ rw apart))
      ]

  -- A save under one id leaves what is loaded under any other as it was, whatever the store.
  pub save_session_elsewhere :
      (store : SessionStore St) (key j : String) (x : Live) (st : St)
      → (key == j) ≡ false
      → load_session s store migrations j (save_session s store key x st).1
        ≡ load_session s store migrations j st
  unfolding load_session save_session save_blob
  save_session_elsewhere store key j x st apart = elim (Backend-cases store.backend) [
    | inl (b, e) ↦ rw e (
        ap (from_kv s migrations) {y = b.get j st}
          (b.get-set j key (context_to_dict s x.branch) st ∙ rw apart))
    | inr (b, e) ↦ rw e (save_append_elsewhere b store.compact_every key j x st apart)
  ]
