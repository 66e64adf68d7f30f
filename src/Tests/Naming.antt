-- ===== src/Tests/Naming.antt =====
-- A way to name every class by a text: two characters in front of an application's own.
use Prim.Native.String.{[], ◌∷◌}
use reactifact.Prelude.{String, ◌≡◌, refl, Option, some}
use reactifact.Model.{Class, app, pending_question, pending_action}

abbrev pub name_of : Class → String
name_of (app c) = "a" ∷ "/" ∷ c
name_of pending_question = "q"
name_of pending_action = ""

unfoldable pub class_named : String → Option Class
class_named [] = some pending_action
class_named (c ∷ []) = some pending_question
class_named (c ∷ d ∷ s) = some (app s)

pub class_named-name_of : (c : Class) → class_named (name_of c) ≡ some c
unfolding class_named
class_named-name_of (app c) = refl
class_named-name_of pending_question = refl
class_named-name_of pending_action = refl
