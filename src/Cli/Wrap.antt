-- ===== src/Cli/Wrap.antt =====
-- cmd/inferbolt/agent.go: `indentWrap`.
use mathlib.Core.Path.{ap₂}
use mathlib.Core.List.{append_assoc}
use text.Mathlib.TextLemmas.{append_assoc as text_assoc, append-nil as text_append-nil}
use text.Mathlib.TextPositions.{len-append}
use inferbolt.Base.{
  ℕ, ◌+◌, ◌≤◌, String, ◌≡◌, refl, sym, ap, ◌∙◌, inl, inr, ◌⊎◌, List, [], ◌∷◌, ◌++◌, map, ltb,
  concat, join, arith, All, Bool-cases, if◌then◌else◌,
}
use inferbolt.Base.Spaces.{fields}
use Prim.Native.String.{len}

abbrev pub width : ℕ
width = 76

-- What stands between two lines.
abbrev pub line_break : String
line_break = "\n         "

-- The loop over the words behind the first, at a column.
unfoldable pub wrap_rest : ℕ → List String → String
wrap_rest col [] = ""
wrap_rest col (word ∷ words) =
    let broken = wrap_rest (len word) words in
    let same_line = wrap_rest (col + 1 + len word) words in
    if ltb width (col + 1 + len word)
    then concat line_break (concat word broken)
    else concat " " (concat word same_line)

unfoldable pub wrap_words : List String → String
unfolding wrap_rest
wrap_words [] = ""
wrap_words (word ∷ words) = concat word (wrap_rest (len word) words)

unfoldable pub indent_wrap : String → String
unfolding wrap_words
indent_wrap s = wrap_words (fields s)

-- The same as lines of words: a line takes the next word while it stays within the width.
lines_from : List String → List String → List (List String)
lines_from line [] = line ∷ []
lines_from line (word ∷ words) =
    let broken = lines_from (word ∷ []) words in
    let same_line = lines_from (line ++ word ∷ []) words in
    if ltb width (len (join " " line) + 1 + len word) then line ∷ broken else same_line

abbrev pub words_on : List (List String) → List String
words_on [] = []
words_on (line ∷ lines) = line ++ words_on lines

-- A line within the width, or of one word, which may be longer.
abbrev pub Fits : List String → Type 0
Fits line = (len (join " " line) ≤ 76) ⊎ ((word : String) × (line ≡ word ∷ []))

lines_from-words : (line words : List String) → words_on (lines_from line words) ≡ line ++ words
unfolding lines_from
lines_from-words line [] = refl
lines_from-words line (word ∷ words) =
    elim (Bool-cases (ltb width (len (join " " line) + 1 + len word))) [
      | inl h ↦ rw h (ap (λ l. line ++ l) (lines_from-words (word ∷ []) words))
      | inr h ↦
          rw h (lines_from-words (line ++ word ∷ []) words ∙ append_assoc line (word ∷ []) words)
    ]

join-last :
    (x word : String) (line : List String)
    → join " " (x ∷ line ++ word ∷ []) ≡ concat (join " " (x ∷ line)) (concat " " word)
join-last x word [] = refl
join-last x word (y ∷ line) =
    ap (λ t. concat x (concat " " t)) (join-last y word line)
    ∙ sym (
        text_assoc x (concat " " (join " " (y ∷ line))) (concat " " word)
        ∙ ap (concat x) (text_assoc " " (join " " (y ∷ line)) (concat " " word)))

len-join-last :
    (x word : String) (line : List String)
    → len (join " " (x ∷ line ++ word ∷ [])) ≡ len (join " " (x ∷ line)) + 1 + len word
len-join-last x word line = ground (
  arith,
  ap len (join-last x word line),
  len-append (join " " (x ∷ line)) (concat " " word),
  len-append " " word,
)

lines_from-nonempty :
    (line words : List String)
    → (first : List String) × (more : List (List String)) × (lines_from line words ≡ first ∷ more)
unfolding lines_from
lines_from-nonempty line [] = (line, [], refl)
lines_from-nonempty line (word ∷ words) =
    elim (Bool-cases (ltb width (len (join " " line) + 1 + len word))) [
      | inl h ↦ rw h (line, lines_from (word ∷ []) words, refl)
      | inr h ↦ rw h (lines_from-nonempty (line ++ word ∷ []) words)
    ]

join-more :
    (sep x : String) (lines more : List (List String)) (first : List String)
    → lines ≡ first ∷ more
    → join sep (x ∷ map (join " ") lines) ≡ concat x (concat sep (join sep (map (join " ") lines)))
join-more sep x lines more first e = rw e refl

lines_from-Fits :
    (x : String) (line words : List String)
    → Fits (x ∷ line)
    → All Fits (lines_from (x ∷ line) words)
unfolding lines_from
lines_from-Fits x line [] h = (h, tt)
lines_from-Fits x line (word ∷ words) h =
    elim (Bool-cases (ltb width (len (join " " (x ∷ line)) + 1 + len word))) [
      | inl k ↦ rw k (h, lines_from-Fits word [] words (inr (word, refl)))
      | inr k ↦ rw k (
          lines_from-Fits x (line ++ word ∷ []) words
            (inl (ground (arith, k, len-join-last x word line))))
    ]

wrap_rest-lines :
    (x : String) (line words : List String)
    → concat (join " " (x ∷ line)) (wrap_rest (len (join " " (x ∷ line))) words)
      ≡ join line_break (map (join " ") (lines_from (x ∷ line) words))
unfolding wrap_rest lines_from
wrap_rest-lines x line [] = text_append-nil _
wrap_rest-lines x line (word ∷ words) =
    elim (Bool-cases (ltb width (len (join " " (x ∷ line)) + 1 + len word))) [
      | inl k ↦ rw k (
          let (first, more, e) = lines_from-nonempty (word ∷ []) words in
          ap (λ t. concat (join " " (x ∷ line)) (concat line_break t))
            (wrap_rest-lines word [] words)
          ∙ sym (join-more line_break (join " " (x ∷ line)) _ more first e))
      | inr k ↦ rw k (
          ap (concat (join " " (x ∷ line))) (sym (text_assoc " " word _))
          ∙ sym (text_assoc (join " " (x ∷ line)) (concat " " word) _)
          ∙ ap₂ (λ t n. concat t (wrap_rest n words)) (sym (join-last x word line))
              (sym (len-join-last x word line))
          ∙ wrap_rest-lines x (line ++ word ∷ []) words)
    ]

wrap_words_lem :
    (words : List String)
    → (lines : List (List String)) × (wrap_words words ≡ join line_break (map (join " ") lines))
      × (words_on lines ≡ words)
      × All Fits lines
unfolding wrap_words
wrap_words_lem [] = ([], refl, refl, tt)
wrap_words_lem (word ∷ words) = (
  lines_from (word ∷ []) words,
  wrap_rest-lines word [] words,
  lines_from-words (word ∷ []) words,
  lines_from-Fits word [] words (inr (word, refl)),
)

-- Prose is laid out on lines of words, which are the words of the text in their order; each line
-- is at most 76 bytes wide, or it is one word that is wider.
pub indent_wrap_lem :
    (s : String)
    → (lines : List (List String)) × (indent_wrap s ≡ join "\n         " (map (join " ") lines))
      × (words_on lines ≡ fields s)
      × All Fits lines
unfolding indent_wrap
indent_wrap_lem s = wrap_words_lem (fields s)
