-- ===== src/Placeholders/Scanning.antt =====
-- packages/server/src/domain/template-placeholders.ts: scanning a text for its slots.
use Prim.Native.Char.{Char, char, code}
use Prim.Native.String.{[], ◌∷◌, ◌++◌}
use mathlib.Core.List.{[] as []ᴸ, ◌∷◌ as ◌∷ᴸ◌}
use text.Mathlib.TextLemmas.{nil-append, cons-append, append_assoc}
use whaloc.Base.{
  filter_kept, All-of, IsDistinct, String, List, Bool, not, true, false, none, some, ℕ, ◌-◌, eqb,
  ◌≡◌, ◌≢◌, refl, sym, ap, ◌∙◌, arith, is_space, span_by, behind, text_length, text_length-append,
  AllChars, Stops, span_by_none, span_by-append,
}
use whaloc.Placeholders.{
  is_word, named, word_at, open_at, match_at, scan, add_names, extract_placeholders,
}
use whaloc.Placeholders.Occurrences.{
  first_occurrences, is_new, add_names-first_occurrences, extract_placeholders-IsDistinct,
}

abbrev brace : Char
brace = char b'{' tt

abbrev pub no_brace : ℕ → Bool
no_brace c = not (eqb c b'{')

-- texts in turn with slots, and a text behind the last
abbrev pub render : List (String × String) → String → String
render []ᴸ tail = tail
render ((text, name) ∷ᴸ slots) tail = text ++ "{{" ++ name ++ "}}" ++ render slots tail

abbrev pub slot_names : List (String × String) → List String
slot_names []ᴸ = []ᴸ
slot_names ((text, name) ∷ᴸ slots) = name ∷ᴸ slot_names slots

-- no text has an opening brace, and every name is a word
abbrev pub IsPlain : List (String × String) → Type 0
IsPlain []ᴸ = Unit
IsPlain ((text, name) ∷ᴸ slots) =
    AllChars no_brace text × (name ≢ "") × AllChars is_word name × IsPlain slots

match_at-none : (c : Char) (s : String) → no_brace (code c) ≡ true → match_at (c ∷ s) ≡ none
unfolding match_at open_at
match_at-none c s h = ground (arith, h)

scan-none : (c : Char) (s : String) → match_at (c ∷ s) ≡ none → scan 0 (c ∷ s) ≡ scan 0 s
unfolding scan
scan-none c s e = rw (e, scan) refl

scan_match :
    (c : Char) (s name rest : String)
    → match_at (c ∷ s) ≡ some (name, rest)
    → scan 0 (c ∷ s) ≡ name ∷ᴸ scan (text_length s - text_length rest) s
unfolding scan
scan_match c s name rest e = rw (e, scan) refl

-- a text without an opening brace has no match
scan_text : (text s : String) → AllChars no_brace text → scan 0 (text ++ s) ≡ scan 0 s
scan_text [] s h = rw nil-append refl
scan_text (c ∷ text) s (e, h) =
    rw cons-append (scan-none c (text ++ s) (match_at-none c (text ++ s) e) ∙ scan_text text s h)

scan_plain : (text : String) → AllChars no_brace text → scan 0 text ≡ []ᴸ
scan_plain [] h = unfold scan in refl
scan_plain (c ∷ text) (e, h) = scan-none c text (match_at-none c text e) ∙ scan_plain text h

-- what belongs to a match is skipped
scan_skip : (a s : String) → scan (text_length a) (a ++ s) ≡ scan 0 s
unfolding scan
scan_skip [] s = rw nil-append refl
scan_skip (c ∷ a) s = rw cons-append (scan_skip a s)

word-Stops : (s : String) → Stops is_word ("}}" ++ s)
word-Stops s = rw cons-append refl

space-Stops : (s : String) → Stops is_space ("}}" ++ s)
space-Stops s = rw cons-append refl

behind_open : (s : String) → behind "{{" ("{{" ++ s) ≡ some s
behind_open s = rw cons-append (rw cons-append (rw nil-append refl))

behind_close : (s : String) → behind "}}" ("}}" ++ s) ≡ some s
behind_close s = rw cons-append (rw cons-append (rw nil-append refl))

no_space : (c : Char) → is_word (code c) ≡ true → is_space (code c) ≡ false
no_space c h = ground (arith, h)

name-Stops : (name s : String) → name ≢ "" → AllChars is_word name → Stops is_space (name ++ s)
name-Stops [] s some_name h = absurd (some_name refl)
name-Stops (c ∷ name) s some_name (e, h) = rw cons-append (no_space c e)

named_lem : (name s : String) → name ≢ "" → named name (some s) ≡ some (name, s)
named_lem [] s some_name = absurd (some_name refl)
named_lem (c ∷ name) s some_name = refl

match_at-slot :
    (name s : String)
    → name ≢ ""
    → AllChars is_word name
    → match_at ("{{" ++ name ++ "}}" ++ s) ≡ some (name, s)
unfolding match_at open_at word_at
match_at-slot name s some_name h =
    ap open_at (behind_open (name ++ "}}" ++ s))
    ∙ ap (λ (p : String × String). word_at (span_by is_word p.1))
        (span_by_none is_space (name ++ "}}" ++ s) (name-Stops name ("}}" ++ s) some_name h))
    ∙ ap word_at (span_by-append is_word name ("}}" ++ s) h (word-Stops s))
    ∙ ap (λ (p : String × String). named name (behind "}}" p.1))
        (span_by_none is_space ("}}" ++ s) (space-Stops s))
    ∙ ap (named name) (behind_close s)
    ∙ named_lem name s some_name

-- what a slot has behind its first brace
abbrev rest_of : String → String
rest_of name = "{" ++ name ++ "}}"

split_slot : (name s : String) → "{{" ++ name ++ "}}" ++ s ≡ "{" ++ (rest_of name ++ s)
split_slot name s =
    append_assoc "{" "{" (name ++ "}}" ++ s)
    ∙ ap (λ x. "{" ++ x)
        (ap (λ x. "{" ++ x) (sym (append_assoc name "}}" s))
          ∙ sym (append_assoc "{" (name ++ "}}") s))

brace_cons : (s : String) → "{" ++ s ≡ brace ∷ s
brace_cons s = rw cons-append (rw nil-append refl)

rest_length : (a s : String) → text_length (a ++ s) - text_length s ≡ text_length a
rest_length a s = omega (arith, text_length-append a s)

-- a slot is one match
scan_slot :
    (name s : String)
    → name ≢ ""
    → AllChars is_word name
    → scan 0 ("{{" ++ name ++ "}}" ++ s) ≡ name ∷ᴸ scan 0 s
scan_slot name s some_name h =
    let opened : "{{" ++ name ++ "}}" ++ s ≡ brace ∷ (rest_of name ++ s) =
      split_slot name s ∙ brace_cons (rest_of name ++ s) in
    ap (scan 0) opened
    ∙ scan_match brace (rest_of name ++ s) name s
        (ap match_at (sym opened) ∙ match_at-slot name s some_name h)
    ∙ ap (λ k. name ∷ᴸ scan k (rest_of name ++ s)) (rest_length (rest_of name) s)
    ∙ ap (λ ns. name ∷ᴸ ns) (scan_skip (rest_of name) s)

scan-render :
    (slots : List (String × String)) (tail : String)
    → IsPlain slots
    → AllChars no_brace tail
    → scan 0 (render slots tail) ≡ slot_names slots
scan-render []ᴸ tail plain h = scan_plain tail h
scan-render ((text, name) ∷ᴸ slots) tail (plain, some_name, word, more) h =
    scan_text text ("{{" ++ name ++ "}}" ++ render slots tail) plain
    ∙ scan_slot name (render slots tail) some_name word
    ∙ ap (λ ns. name ∷ᴸ ns) (scan-render slots tail more h)

-- From texts without an opening brace that alternate with slots of one word each, the extraction
-- returns the words in the order that they first appear in, each once: the first word, and behind
-- it, of the words that come of the rest in this way, those that are other words.
pub extract_placeholders-render :
    (slots : List (String × String)) (tail : String)
    → IsPlain slots
    → AllChars no_brace tail
    → (extract_placeholders (render slots tail) ≡ first_occurrences (slot_names slots))
      × IsDistinct (λ n. n) (extract_placeholders (render slots tail))
unfolding extract_placeholders
extract_placeholders-render slots tail plain h = (
  ap (add_names []ᴸ) (scan-render slots tail plain h)
      ∙ add_names-first_occurrences []ᴸ (slot_names slots)
      ∙ filter_kept (is_new []ᴸ) (first_occurrences (slot_names slots)) (All-of _ (λ n. refl) _),
  extract_placeholders-IsDistinct (render slots tail),
)
