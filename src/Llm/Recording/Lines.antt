-- ===== src/Llm/Recording/Lines.antt =====
-- The lines of a text, as `str.splitlines` cuts them. Reading the file as text, which turns a carriage
-- return with or without a line feed into a line feed, does not change them.
use Prim.Native.Char.{Char, code}
use reactifact.Prelude.{
  ◌≡◌, refl, ap, ◌∙◌, Bool, true, false, ◌&&◌, ◌||◌, List, [], ◌∷◌, ◌++◌, eqb, leb,
}

abbrev pub Text : Type 0
Text = List Char

abbrev pub newline : Char
newline = "\n"

abbrev is_return : Char → Bool
is_return c = eqb (code c) 13

-- The characters at which `splitlines` cuts.
abbrev pub is_break : Char → Bool
is_break c =
    (leb 10 (code c) && leb (code c) 13)
    || ((leb 28 (code c) && leb (code c) 30)
        || (eqb (code c) 133 || (leb 8232 (code c) && leb (code c) 8233)))

abbrev prepend : Char → List Text → List Text
prepend c [] = (c ∷ []) ∷ []
prepend c (l ∷ ls) = (c ∷ l) ∷ ls

-- A line feed behind a carriage return is part of the same break.
unfoldable pub lines_from : Bool → Text → List Text
lines_from returned [] = []
lines_from returned (c ∷ cs) = elim (returned && eqb (code c) 10) [
  | true ↦ lines_from false cs
  | false ↦ elim (is_break c) [
    | true ↦ [] ∷ lines_from (is_return c) cs
    | false ↦ prepend c (lines_from false cs)
  ]
]

unfoldable pub splitlines : Text → List Text
unfolding lines_from
splitlines t = lines_from false t

abbrev pub IsUnbroken : Text → Type 0
IsUnbroken [] = Unit
IsUnbroken (c ∷ t) = (is_break c ≡ false) × IsUnbroken t

abbrev pub AllUnbroken : List Text → Type 0
AllUnbroken [] = Unit
AllUnbroken (l ∷ ls) = IsUnbroken l × AllUnbroken ls

-- A file of these lines.
abbrev pub joined : List Text → Text
joined [] = []
joined (l ∷ ls) = l ++ newline ∷ joined ls

lines_from-line :
    (l rest : Text)
    → IsUnbroken l
    → lines_from false (l ++ newline ∷ rest) ≡ l ∷ lines_from false rest
unfolding lines_from
lines_from-line [] rest h = refl
lines_from-line (c ∷ l) rest h = rw (h.0, lines_from) (ap (prepend c) (lines_from-line l rest h.1))

pub splitlines-joined : (ls : List Text) → AllUnbroken ls → splitlines (joined ls) ≡ ls
unfolding splitlines
splitlines-joined [] h = unfold lines_from in refl
splitlines-joined (l ∷ ls) h =
    lines_from-line l (joined ls) h.0 ∙ ap (◌∷◌ l) (splitlines-joined ls h.1)

pub AllUnbroken-append :
    (ls : List Text) (l : Text) → AllUnbroken ls → IsUnbroken l → AllUnbroken (ls ++ l ∷ [])
AllUnbroken-append [] l h k = (k, tt)
AllUnbroken-append (x ∷ ls) l h k = (h.0, AllUnbroken-append ls l h.1 k)

append_line : (x : Text) (y z : Text) → (x ++ newline ∷ y) ++ z ≡ x ++ newline ∷ (y ++ z)
append_line [] y z = refl
append_line (c ∷ x) y z = ap (◌∷◌ c) (append_line x y z)

pub joined-append :
    (ls : List Text) (l : Text) → joined ls ++ (l ++ newline ∷ []) ≡ joined (ls ++ l ∷ [])
joined-append [] l = refl
joined-append (x ∷ ls) l =
    append_line x (joined ls) (l ++ newline ∷ []) ∙ ap (λ t. x ++ newline ∷ t) (joined-append ls l)
