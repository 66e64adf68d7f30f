-- ===== src/Llm/Structured/Extract.antt =====
-- `_extract_json` of reactifact/structured.py: the first balanced JSON object of a text, once the
-- white space around it and its code fences are gone.
use Prim.Native.Char.{Char, code}
use text.Mathlib.TextBridge.{of_list}
use reactifact.Prelude.Texts.{chars}
use reactifact.Prelude.{
  ℕ, ◌+◌, ◌-◌, String, Bool, true, false, not, ◌&&◌, ◌||◌, leb, zero, suc, Option, none, some, List,
  [], ◌∷◌, eqb, if◌then◌else◌,
}

abbrev pub Text : Type 0
Text = List Char

abbrev between : ℕ → ℕ → ℕ → Bool
between lo hi n = leb lo n && leb n hi

-- What `str.strip` takes for white space.
abbrev pub is_space : Char → Bool
is_space c =
    between 9 13 (code c)
    || (between 28 32 (code c)
        || (eqb (code c) 133
            || (eqb (code c) 160
                || (eqb (code c) 5760
                    || (between 8192 8202 (code c)
                        || (between 8232 8233 (code c)
                            || (eqb (code c) 8239
                                || (eqb (code c) 8287 || eqb (code c) 12288))))))))

abbrev pub is_tick : Char → Bool
is_tick c = eqb (code c) 96

unfoldable pub lstrip : (Char → Bool) → Text → Text
lstrip p [] = []
lstrip p (c ∷ cs) = let rest = lstrip p cs in if p c then rest else c ∷ cs

unfoldable pub rstrip : (Char → Bool) → Text → Text
rstrip p [] = []
rstrip p (c ∷ cs) = elim (rstrip p cs) [ [] ↦ if p c then [] else c ∷ [] | d ∷ ds ↦ c ∷ d ∷ ds ]

unfoldable pub strip : Text → Text
unfolding lstrip rstrip
strip t = rstrip is_space (lstrip is_space t)

-- Whether a text starts with the characters of these codes.
unfoldable pub starts : List ℕ → Text → Bool
starts [] t = true
starts (n ∷ ns) [] = false
starts (n ∷ ns) (c ∷ t) = eqb (code c) n && starts ns t

abbrev pub fence : List ℕ
fence = 96 ∷ 96 ∷ 96 ∷ []

abbrev pub json_fence : List ℕ
json_fence = 96 ∷ 96 ∷ 96 ∷ b'j' ∷ b's' ∷ b'o' ∷ b'n' ∷ []

-- `re.sub(r"^```(?:json)?", "", text, flags=re.MULTILINE)`. The number counts the characters of a
-- match that are still to be left out; the test tells whether a line starts here.
unfoldable pub drop_fences : ℕ → Bool → Text → Text
unfolding starts
drop_fences left line_start [] = []
drop_fences (suc left) line_start (c ∷ cs) = drop_fences left false cs
drop_fences zero line_start (c ∷ cs) = elim (line_start && starts fence (c ∷ cs)) [
  | true ↦ drop_fences (if starts json_fence (c ∷ cs) then 6 else 2) false cs
  | false ↦ c ∷ drop_fences 0 (eqb (code c) 10) cs
]

unfoldable pub unfence : Text → Text
unfolding strip drop_fences
unfence t = strip (rstrip is_tick (drop_fences 0 true (strip t)))

-- The locals of the loop.
pub record Scan : Type 0 where
  pub depth : ℕ
  pub in_string : Bool
  pub escaped : Bool

abbrev pub is_quote : Char → Bool
is_quote c = eqb (code c) b'"'

abbrev pub is_backslash : Char → Bool
is_backslash c = eqb (code c) 92

abbrev pub opens : Char → Bool
opens c = eqb (code c) b'{'

abbrev pub closes : Char → Bool
closes c = eqb (code c) b'}'

-- What a character of a string literal does.
unfoldable pub in_literal : Char → Scan → Scan
in_literal c s =
    if s.escaped
    then record s { escaped = false }
    else if is_backslash c
    then record s { escaped = true }
    else if is_quote c
    then record s { in_string = false }
    else s

-- What a character outside of one does.
unfoldable pub outside : Char → Scan → Scan
outside c s =
    if is_quote c
    then record s { in_string = true }
    else if opens c
    then record s { depth = s.depth + 1 }
    else if closes c
    then record s { depth = s.depth - 1 }
    else s

unfoldable pub step : Char → Scan → Scan
unfolding in_literal outside
step c s = if s.in_string then in_literal c s else outside c s

-- Whether the object ends at this character, which leaves the state given.
unfoldable pub ends : Char → Scan → Scan → Bool
ends c before after = not before.in_string && (not (is_quote c) && (closes c && eqb after.depth 0))

abbrev pub longer : Char → Option Text → Option Text
longer c none = none
longer c (some r) = some (c ∷ r)

-- The loop: the text from here to the end of the object.
unfoldable pub scan : Scan → Text → Option Text
unfolding step ends
scan s [] = none
scan s (c ∷ cs) =
    let s' = step c s in
    let rest = scan s' cs in if ends c s s' then some (c ∷ []) else longer c rest

abbrev pub fresh : Scan
fresh = record { depth = 0; in_string = false; escaped = false }

-- `text.index("{")` and the loop from there
unfoldable pub extract : Text → Option Text
unfolding scan
extract [] = none
extract (c ∷ cs) = let later = extract cs in if opens c then scan fresh (c ∷ cs) else later

unfoldable pub extract_json : String → Option String
unfolding extract unfence
extract_json text = elim (extract (unfence (chars text))) [
  | none ↦ none
  | some r ↦ some (of_list r)
]
