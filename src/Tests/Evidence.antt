-- ===== src/Tests/Evidence.antt =====
-- The theorems on reports and on effects, at the note and the report that cites it.
use reactifact.Prelude.{
  ℕ, String, ◌≡◌, refl, Option, none, some, or_else, List, [], ◌∷◌, ◌++◌, arith, string_eq,
}
use reactifact.Prelude.Dict.{lookup}
use reactifact.Result.{ok}
use reactifact.Model.{Model}
use reactifact.Context.{empty_context}
use reactifact.Runtime.{apply_patch}
use reactifact.Audit.{AuditReport, by_id, build_report, default_relations}
use reactifact.Audit.Walked.{IsKept}
use reactifact.Audit.Report.{IsProvenance, build_report_lem}
use reactifact.Effects.{act, create_once}
use reactifact.Effects.Once
use reactifact.Effects.Once.{act-idempotent}
use reactifact.Tests.Data.{edited, summary}

abbrev one_hash : Model → String
one_hash d = "d0"

abbrev no_locator : Model → Option String
no_locator d = none

abbrev cited : Option (List String)
cited = some ("cites" ∷ [])

edited-IsKept : IsKept edited
unfolding lookup
edited-IsKept k a e = ground (arith, e, string_eq.beq_iff "n" k, string_eq.beq_iff "r" k)

edited_report : lookup "r" edited.artifacts ≡ some summary
unfolding lookup
edited_report = refl

build_report_lem_example :
    (report : AuditReport) × (build_report one_hash no_locator 2 "s" "h" cited (by_id "r") edited
      ≡ some (ok report))
    × IsProvenance one_hash no_locator (or_else cited default_relations) "r" edited report
build_report_lem_example =
    build_report_lem one_hash no_locator 2 "s" "h" cited "r" edited summary edited-IsKept
      (omega arith) edited_report

abbrev new_ids : ℕ → String
new_ids n = "fresh"

once-IsKept :
    Once.IsKept "action:order-1" ((act "email" "order-1" "{}" none empty_context []).0 ++ [])
unfolding act create_once lookup
once-IsKept = (refl, tt)

act-idempotent_example :
    act "sms" "order-1" "{}" none
      (apply_patch new_ids "c0"
        ((act "email" "order-1" "{}" none empty_context []).0 ++ [])
        empty_context).context
      []
    ≡ ([], none)
act-idempotent_example =
    act-idempotent new_ids "c0" "email" "sms" "order-1" "{}" "{}" empty_context [] [] [] once-IsKept
