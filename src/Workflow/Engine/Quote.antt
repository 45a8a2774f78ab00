-- ===== src/Workflow/Engine/Quote.antt =====
-- What a POSIX shell reads back of a quoted text.
use enzarb.Base.{
  ℕ, ◌≡◌, refl, sym, ap, ◌∙◌, inl, inr, true, false, Option, none, some, [], ◌∷◌, ◌++◌, ◌==◌,
  Bool-cases, arith,
}
use enzarb.Base.Text.{Str, text}
use enzarb.Workflow.Engine.{quote, quote_rest, shell_quote}

abbrev push : ℕ → Option Str → Option Str
push c none = none
push c (some s) = some (c ∷ s)

-- Where the reader stands: outside of quotes, between single quotes, or behind a backslash.
pub data Reading : Type 0 where
  outside inside escaped : Reading

-- The word that a shell reads: between single quotes each byte is itself, and outside only a byte behind a backslash is.
-- Nothing when a quote is left open, or when a byte stands unquoted, where the shell could give it a meaning.
unfoldable pub read_word : Reading → Str → Option Str
read_word outside [] = some []
read_word inside [] = none
read_word escaped [] = none
read_word outside (c ∷ s) = elim (c == quote) [
  | true ↦ read_word inside s
  | false ↦ elim (c == 92) [ true ↦ read_word escaped s | false ↦ none ]
]
read_word inside (c ∷ s) = elim (c == quote) [
  | true ↦ read_word outside s
  | false ↦ push c (read_word inside s)
]
read_word escaped (c ∷ s) = push c (read_word outside s)

read_word-escaped :
    (s : Str) → read_word inside (text "'\\''" ++ s) ≡ push quote (read_word inside s)
unfolding read_word text
read_word-escaped s = refl

read_word-plain :
    (c : ℕ) (s : Str)
    → (c == quote) ≡ false
    → read_word inside (c ∷ s) ≡ push c (read_word inside s)
unfolding read_word
read_word-plain c s h = rw (h, read_word) refl

read_word-rest : (s : Str) → read_word inside (quote_rest s) ≡ some s
unfolding read_word quote_rest
read_word-rest [] = refl
read_word-rest (c ∷ s) = elim (Bool-cases (c == quote)) [
  | inl h ↦
      let e : c ≡ quote = ground arith in
      rw (h) (
        read_word-escaped (quote_rest s)
        ∙ ap (push quote) (read_word-rest s)
        ∙ ap (λ x. some (x ∷ s)) (sym e))
  | inr h ↦ rw (h) (read_word-plain c (quote_rest s) h ∙ (ap (push c) (read_word-rest s)))
]

-- A shell reads the quoted form of every text back as one word, the text, with no byte of it unquoted.
pub read_word-shell_quote : (s : Str) → read_word outside (shell_quote s) ≡ some s
unfolding shell_quote read_word
read_word-shell_quote s = read_word-rest s
