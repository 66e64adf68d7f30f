-- ===== src/Llm/Structured/Balanced.antt =====
-- `_extract_json` finds an object whatever stands before and after it.
use Prim.Native.Char.{Char}
use text.Mathlib.TextBridge.{of_list}
use reactifact.Prelude.Texts.{chars}
use reactifact.Prelude.{
  none, ℕ, suc, ◌+◌, ◌-◌, ◌≡◌, refl, sym, ap, ◌∙◌, true, false, Option, some, [], ◌∷◌, ◌++◌, String,
  arith,
}
use reactifact.Llm.Structured.Extract.{
  unfence, Text, Scan, is_quote, is_backslash, opens, closes, in_literal, outside, step, ends,
  longer, scan, fresh, extract, extract_json,
}

-- The inside of a string literal of JSON.
pub data Literal : Text → Type 0 where
  finished : Literal []
  plain :
      {s : Text} (c : Char)
      → is_quote c ≡ false
      → is_backslash c ≡ false
      → Literal s
      → Literal (c ∷ s)
  escape : {s : Text} (b c : Char) → is_backslash b ≡ true → Literal s → Literal (b ∷ c ∷ s)

-- The inside of an object: its braces balance outside of its string literals.
pub data Body : Text → Type 0 where
  empty : Body []
  other :
      {s : Text} (c : Char)
      → is_quote c ≡ false
      → opens c ≡ false
      → closes c ≡ false
      → Body s
      → Body (c ∷ s)
  quoted :
      {l s : Text} (p q : Char)
      → is_quote p ≡ true
      → Literal l
      → is_quote q ≡ true
      → Body s
      → Body (p ∷ l ++ q ∷ s)
  nested :
      {b s : Text} (p q : Char)
      → opens p ≡ true
      → Body b
      → closes q ≡ true
      → Body s
      → Body (p ∷ b ++ q ∷ s)

abbrev longer_by : Text → Option Text → Option Text
longer_by [] r = r
longer_by (c ∷ cs) r = longer c (longer_by cs r)

longer_by-append :
    (s t : Text) (r : Option Text) → longer_by (s ++ t) r ≡ longer_by s (longer_by t r)
longer_by-append [] t r = refl
longer_by-append (c ∷ s) t r = ap (longer c) (longer_by-append s t r)

abbrev at_depth : ℕ → Scan
at_depth n = record { depth = n; in_string = false; escaped = false }

abbrev in_text : ℕ → Scan
in_text n = record { depth = n; in_string = true; escaped = false }

scan-Literal :
    (n : ℕ) (l rest : Text)
    → Literal l
    → scan (in_text n) (l ++ rest) ≡ longer_by l (scan (in_text n) rest)
unfolding scan step ends in_literal
scan-Literal n _ rest finished = refl
scan-Literal n _ rest (plain {s} c p q h) = ground (arith, scan-Literal n s rest h, p, q)
scan-Literal n _ rest (escape {s} b c p h) = ground (arith, scan-Literal n s rest h, p)

module _ (n : ℕ) (c : Char) (t : Text) where
  scan_quote : is_quote c ≡ true → scan (at_depth n) (c ∷ t) ≡ longer c (scan (in_text n) t)
  unfolding scan step ends outside
  scan_quote p = ground (arith, p)

  scan_unquote : is_quote c ≡ true → scan (in_text n) (c ∷ t) ≡ longer c (scan (at_depth n) t)
  unfolding scan step ends in_literal
  scan_unquote p = ground (arith, p)

  scan_open : opens c ≡ true → scan (at_depth n) (c ∷ t) ≡ longer c (scan (at_depth (suc n)) t)
  unfolding scan step ends outside
  scan_open p = let e : n + 1 ≡ suc n = omega arith in ground (arith, p, e)

  scan_close :
      closes c ≡ true → scan (at_depth (suc (suc n))) (c ∷ t) ≡ longer c (scan (at_depth (suc n)) t)
  unfolding scan step ends outside
  scan_close p = let e : suc (suc n) - 1 ≡ suc n = omega arith in ground (arith, p, e)

  scan_end : closes c ≡ true → scan (at_depth 1) (c ∷ t) ≡ some (c ∷ [])
  unfolding scan step ends outside
  scan_end p = ground (arith, p)

  scan_other :
      is_quote c ≡ false
      → opens c ≡ false
      → closes c ≡ false
      → scan (at_depth n) (c ∷ t) ≡ longer c (scan (at_depth n) t)
  unfolding scan step ends outside
  scan_other p q r = ground (arith, p, q, r)

append_around : (s : Text) (c : Char) (t u : Text) → (s ++ c ∷ t) ++ u ≡ s ++ c ∷ (t ++ u)
append_around [] c t u = refl
append_around (x ∷ s) c t u = ap (◌∷◌ x) (append_around s c t u)

scan-Body :
    (n : ℕ) (b rest : Text)
    → Body b
    → scan (at_depth (suc n)) (b ++ rest) ≡ longer_by b (scan (at_depth (suc n)) rest)
scan-Body n _ rest empty = refl
scan-Body n _ rest (other {s} c p q r h) =
    scan_other (suc n) c (s ++ rest) p q r ∙ ap (longer c) (scan-Body n s rest h)
scan-Body n _ rest (quoted {l} {s} p q open_ h close k) =
    scan_quote (suc n) p ((l ++ q ∷ s) ++ rest) open_
    ∙ ap (longer p) (
        ap (scan (in_text (suc n))) (append_around l q s rest)
        ∙ scan-Literal (suc n) l (q ∷ (s ++ rest)) h
        ∙ ap (longer_by l)
            (scan_unquote (suc n) q (s ++ rest) close ∙ ap (longer q) (scan-Body n s rest k))
        ∙ sym (longer_by-append l (q ∷ s) _))
scan-Body n _ rest (nested {b} {s} p q open_ h close k) =
    scan_open (suc n) p ((b ++ q ∷ s) ++ rest) open_
    ∙ ap (longer p) (
        ap (scan (at_depth (suc (suc n)))) (append_around b q s rest)
        ∙ scan-Body (suc n) b (q ∷ (s ++ rest)) h
        ∙ ap (longer_by b) (scan_close n q (s ++ rest) close ∙ ap (longer q) (scan-Body n s rest k))
        ∙ sym (longer_by-append b (q ∷ s) _))

-- No object starts in a text.
abbrev pub IsOpenless : Text → Type 0
IsOpenless [] = Unit
IsOpenless (c ∷ t) = (opens c ≡ false) × IsOpenless t

longer_by-some : (s t : Text) → longer_by s (some t) ≡ some (s ++ t)
longer_by-some [] t = refl
longer_by-some (c ∷ s) t = ap (longer c) (longer_by-some s t)

extract-skip : (before t : Text) → IsOpenless before → extract (before ++ t) ≡ extract t
unfolding extract
extract-skip [] t h = refl
extract-skip (c ∷ before) t h = ground (arith, h.0, extract-skip before t h.1)

extract-open : (p : Char) (t : Text) → opens p ≡ true → extract (p ∷ t) ≡ scan fresh (p ∷ t)
unfolding extract
extract-open p t e = ground (arith, e)

extract-object :
    (p q : Char) (b rest : Text)
    → opens p ≡ true
    → Body b
    → closes q ≡ true
    → extract (p ∷ b ++ q ∷ rest) ≡ some (p ∷ b ++ q ∷ [])
extract-object p q b rest open_ h close =
    extract-open p (b ++ q ∷ rest) open_
    ∙ scan_open 0 p (b ++ q ∷ rest) open_
    ∙ ap (longer p) (
        scan-Body 0 b (q ∷ rest) h
        ∙ ap (longer_by b) (scan_end 0 q rest close)
        ∙ longer_by-some b (q ∷ []))

-- Where the text of a reply, stripped and freed of its code fences, holds an object whose braces
-- balance outside of its string literals, and no brace opens before it, that object is what is
-- extracted, whatever comes after it.
pub extract_json_lem :
    (reply : String) (before b after : Text) (p q : Char)
    → unfence (chars reply) ≡ before ++ (p ∷ b ++ q ∷ after)
    → IsOpenless before
    → opens p ≡ true
    → Body b
    → closes q ≡ true
    → extract_json reply ≡ some (of_list (p ∷ b ++ q ∷ []))
unfolding extract_json extract
extract_json_lem reply before b after p q e h open_ k close = ap reply_of (
    ap extract e
    ∙ extract-skip before (p ∷ b ++ q ∷ after) h
    ∙ extract-object p q b after open_ k close)
  where
    reply_of : Option Text → Option String
    reply_of none = none
    reply_of (some r) = some (of_list r)
