-- ===== src/Tests/Registries.antt =====
-- Two classes registered, and a third that asks for a name of the first.
use reactifact.Prelude.{String, ◌≡◌, refl, Option, none, some, [], ◌∷◌, string_eq}
use reactifact.Prelude.Dict.{lookup, insert, remove}
use reactifact.Prelude.Sets.{contains}
use reactifact.Result.{type_id_taken}
use reactifact.Model.{Class, app, pending_question, pending_action, class_eq, class_beq}
use reactifact.Types.{
  Registry, no_types, register, resolve, type_id_of, unregister, taken, set_keys, drop_keys,
  drop_key,
}
use reactifact.Types.Tables.{IsConsistent, no_types-IsConsistent}
use reactifact.Types.Laws.{register-IsConsistent, register-resolve, register_refused}

abbrev qualname : Class → String
qualname (app c) = c
qualname pending_question = "PendingQuestion"
qualname pending_action = "PendingAction"

abbrev no_type_id : Class → Option String
no_type_id c = none

abbrev nothing_imported : String → Option Class
nothing_imported t = none

abbrev report : Class
report = app "pkg.Report"

-- `Report` under its own name and an alias.
abbrev reported : Registry
reported =
    (register no_type_id qualname report (some "report.v2") ("report.v1" ∷ []) none
      no_types).registry

reported-IsConsistent : IsConsistent reported
reported-IsConsistent =
    register-IsConsistent no_type_id qualname nothing_imported report (some "report.v2")
      ("report.v1" ∷ []) none no_types no_types-IsConsistent

-- Another class takes no name of the report's.
register-resolve_example :
    IsConsistent (register no_type_id qualname (app "pkg.Note") none [] none reported).registry
    × (resolve nothing_imported
          (register no_type_id qualname (app "pkg.Note") none [] none reported).registry
          "report.v1"
        ≡ some report)
    × (resolve nothing_imported
          (register no_type_id qualname (app "pkg.Note") none [] none reported).registry
          (type_id_of no_type_id qualname
            (register no_type_id qualname (app "pkg.Note") none [] none reported).registry
            report)
        ≡ some report)
unfolding register lookup contains unregister taken set_keys drop_keys drop_key insert remove
    class_beq
register-resolve_example =
    register-resolve no_type_id qualname nothing_imported (app "pkg.Note") none [] none reported
      report
      (record {
        ident = 0;
        model = report;
        type_id = "report.v2";
        aliases = "report.v1" ∷ [];
        migrate = none;
      })
      "report.v1" reported-IsConsistent refl refl

-- The report asks for the name of a note, and is registered no more.
register_refused_example :
    lookup report
      (register no_type_id qualname report
        (some "pkg.Note")
        []
        none
        (register no_type_id qualname
          (app "pkg.Note")
          none
          []
          none
          reported).registry).registry.specs
    ≡ none
unfolding register lookup contains unregister taken set_keys drop_keys drop_key insert remove
    class_beq
register_refused_example =
    register_refused no_type_id qualname nothing_imported report (some "pkg.Note") [] none
      (register no_type_id qualname (app "pkg.Note") none [] none reported).registry
      (type_id_taken "pkg.Note")
      (register-IsConsistent no_type_id qualname nothing_imported (app "pkg.Note") none [] none
        reported reported-IsConsistent)
      refl
