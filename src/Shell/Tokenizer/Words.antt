-- ===== src/Shell/Tokenizer/Words.antt =====
-- How words, quoted and not, are read.
use learning_loop_template.Base.{
  ℕ, ◌≡◌, ◌≢◌, refl, sym, ap, ◌∙◌, Bool, true, false, not, ◌&&◌, none, List, [], ◌∷◌, ◌++◌, map,
  arith, ◌==◌, Text, All, append-nil, append_assoc,
}
use learning_loop_template.Shell.Tokenizer.{
  Token, word, Scan, is_space, initial, three_op, two_op, is_one_op, read_op, outside_step,
  single_step, char_step, scan, tokenize,
}

-- Between two words: the tokens so far, and whether a quote has been seen since the last word.
abbrev between : List Token → Bool → Scan
between ts q = record initial { tokens = ts; buf_quoted = q }

-- Inside single quotes.
abbrev inside : List Token → Text → Scan
inside ts b = record initial { tokens = ts; buf = b; buf_quoted = true; in_single = true }

-- In a word outside quotes.
abbrev in_word : List Token → Text → Bool → Scan
in_word ts b q = record initial { tokens = ts; buf = b; buf_quoted = q }

-- The text may stand between single quotes.
abbrev pub IsQuotable : Text → Type 0
IsQuotable = All (λ c. c ≢ b'\'')

-- A character that is no blank, quote, backslash or operator.
unfoldable pub is_plain : ℕ → Bool
unfolding is_space is_one_op
is_plain c =
    not (c == b'\\')
    && (not (c == b'\'') && (not (c == b'"') && (not (is_space c) && not (is_one_op c))))

abbrev pub IsPlain : Text → Type 0
IsPlain = All (λ c. is_plain c ≡ true)

inside_char :
    (c : ℕ) (rest b : Text) (ts : List Token)
    → c ≢ b'\''
    → scan (c ∷ rest) (inside ts b) ≡ scan rest (inside ts (b ++ c ∷ []))
unfolding scan char_step single_step
inside_char c rest b ts h = ground arith

scan-inside :
    (w rest b : Text) (ts : List Token)
    → IsQuotable w
    → scan (w ++ rest) (inside ts b) ≡ scan rest (inside ts (b ++ w))
scan-inside [] rest b ts h = rw append-nil
scan-inside (c ∷ w) rest b ts h =
    inside_char c (w ++ rest) b ts h.0 ∙ scan-inside w rest (b ++ c ∷ []) ts h.1 ∙ (rw append_assoc)

read_op-plain : (c : ℕ) (rest : Text) → is_one_op c ≡ false → read_op c rest ≡ none
unfolding read_op three_op two_op is_one_op
read_op-plain c [] h = ground arith
read_op-plain c (a ∷ []) h = ground arith
read_op-plain c (a ∷ b ∷ rest) h = ground arith

plain_char :
    (c : ℕ) (rest b : Text) (ts : List Token) (q : Bool)
    → is_plain c ≡ true
    → scan (c ∷ rest) (in_word ts b q) ≡ scan rest (in_word ts (b ++ c ∷ []) q)
unfolding scan char_step outside_step is_plain
plain_char c rest b ts q h = ground (arith, read_op-plain c rest)

scan-plain :
    (w rest b : Text) (ts : List Token) (q : Bool)
    → IsPlain w
    → scan (w ++ rest) (in_word ts b q) ≡ scan rest (in_word ts (b ++ w) q)
scan-plain [] rest b ts q h = rw append-nil
scan-plain (c ∷ w) rest b ts q h =
    plain_char c (w ++ rest) b ts q h.0
    ∙ scan-plain w rest (b ++ c ∷ []) ts q h.1
    ∙ (rw append_assoc)

-- The opening and the closing quote.
open_quote :
    (rest : Text) (ts : List Token) (q : Bool)
    → scan (b'\'' ∷ rest) (between ts q) ≡ scan rest (inside ts [])
unfolding scan char_step outside_step
open_quote rest ts q = refl

close_quote :
    (rest b : Text) (ts : List Token)
    → scan (b'\'' ∷ rest) (inside ts b) ≡ scan rest (in_word ts b true)
unfolding scan char_step single_step
close_quote rest b ts = refl

-- A blank ends a word that is not empty, and the end of the command does.
space_ends :
    (c : ℕ) (b rest : Text) (ts : List Token) (q : Bool)
    → scan (b' ' ∷ rest) (in_word ts (c ∷ b) q)
      ≡ scan rest (between (ts ++ word (c ∷ b) q ∷ []) false)
unfolding scan char_step outside_step is_space
space_ends c b rest ts q = refl

end_ends :
    (c : ℕ) (b : Text) (ts : List Token) (q : Bool)
    → (scan [] (in_word ts (c ∷ b) q)).tokens ≡ ts ++ word (c ∷ b) q ∷ []
unfolding scan
end_ends c b ts q = refl

-- One word behind the tokens read so far: single-quoted, or plain.
abbrev pub quoted : Text → Text
quoted w = b'\'' ∷ (w ++ b'\'' ∷ [])

quoted_word :
    (w rest : Text) (ts : List Token) (q : Bool)
    → IsQuotable w
    → scan (quoted w ++ rest) (between ts q) ≡ scan rest (in_word ts w true)
quoted_word w rest ts q h =
    open_quote ((w ++ b'\'' ∷ []) ++ rest) ts q
    ∙ ap (λ (t : Text). scan t (inside ts [])) (append_assoc w (b'\'' ∷ []) rest)
    ∙ scan-inside w (b'\'' ∷ rest) [] ts h
    ∙ close_quote rest w ts

-- A command of words set apart by single blanks.
unfoldable pub spaced : List Text → Text
spaced [] = []
spaced (w ∷ []) = w
spaced (w ∷ v ∷ ws) = w ++ b' ' ∷ spaced (v ∷ ws)

-- A word may be given as it is, or between single quotes.
pub data Arg : Type 0 where
  plain : ℕ → Text → Arg
  single : ℕ → Text → Arg

abbrev pub IsArg : Arg → Type 0
IsArg (plain c w) = IsPlain (c ∷ w)
IsArg (single c w) = IsQuotable (c ∷ w)

abbrev pub shown : Arg → Text
shown (plain c w) = c ∷ w
shown (single c w) = quoted (c ∷ w)

abbrev pub token_of : Arg → Token
token_of (plain c w) = word (c ∷ w) false
token_of (single c w) = word (c ∷ w) true

abbrev buf_of : Arg → Text
buf_of (plain c w) = c ∷ w
buf_of (single c w) = c ∷ w

abbrev is_quoted : Arg → Bool
is_quoted (plain c w) = false
is_quoted (single c w) = true

scan-arg :
    (a : Arg) (rest : Text) (ts : List Token)
    → IsArg a
    → scan (shown a ++ rest) (between ts false) ≡ scan rest (in_word ts (buf_of a) (is_quoted a))
scan-arg (plain c w) rest ts h = scan-plain (c ∷ w) rest [] ts false h
scan-arg (single c w) rest ts h = quoted_word (c ∷ w) rest ts false h

arg_space :
    (a : Arg) (rest : Text) (ts : List Token)
    → scan (b' ' ∷ rest) (in_word ts (buf_of a) (is_quoted a))
      ≡ scan rest (between (ts ++ token_of a ∷ []) false)
arg_space (plain c w) rest ts = space_ends c w rest ts false
arg_space (single c w) rest ts = space_ends c w rest ts true

arg_end :
    (a : Arg) (ts : List Token)
    → (scan [] (in_word ts (buf_of a) (is_quoted a))).tokens ≡ ts ++ token_of a ∷ []
arg_end (plain c w) ts = end_ends c w ts false
arg_end (single c w) ts = end_ends c w ts true

scan-spaced :
    (as' : List Arg) (ts : List Token)
    → All IsArg as'
    → (scan (spaced (map shown as')) (between ts false)).tokens ≡ ts ++ map token_of as'
unfolding spaced
scan-spaced [] ts h = (unfold scan in sym (append-nil ts))
scan-spaced (a ∷ []) ts h =
    ap (λ (t : Text). (scan t (between ts false)).tokens) (sym (append-nil (shown a)))
    ∙ ap (λ (s : Scan). s.tokens) (scan-arg a [] ts h.0)
    ∙ arg_end a ts
scan-spaced (a ∷ b ∷ as') ts h =
    ap (λ (s : Scan). s.tokens)
      (scan-arg a (b' ' ∷ spaced (map shown (b ∷ as'))) ts h.0
        ∙ arg_space a (spaced (map shown (b ∷ as'))) ts)
    ∙ scan-spaced (b ∷ as') (ts ++ token_of a ∷ []) h.1
    ∙ append_assoc ts (token_of a ∷ []) (map token_of (b ∷ as'))

-- Words set apart by blanks are read back as they were written, each with its own quotation flag:
-- plain words as unquoted tokens, and the texts between single quotes, whatever operators, blanks or
-- backslashes they hold, as quoted tokens. No word is empty here.
pub tokenize-spaced :
    (as' : List Arg) → All IsArg as' → tokenize (spaced (map shown as')) ≡ map token_of as'
unfolding tokenize
tokenize-spaced as' h = scan-spaced as' [] h

empty_quotes :
    (rest : Text) → scan (b'\'' ∷ b'\'' ∷ b' ' ∷ rest) initial ≡ scan rest (between [] true)
unfolding scan char_step outside_step single_step is_space
empty_quotes rest = refl

after_quotes :
    (c : ℕ) (w : Text)
    → IsPlain (c ∷ w)
    → tokenize (b'\'' ∷ b'\'' ∷ b' ' ∷ c ∷ w) ≡ word (c ∷ w) true ∷ []
unfolding tokenize
after_quotes c w h =
    ap (λ (s : Scan). s.tokens) (empty_quotes (c ∷ w))
    ∙ ap (λ (t : Text). (scan t (between [] true)).tokens) (sym (append-nil (c ∷ w)))
    ∙ ap (λ (s : Scan). s.tokens) (scan-plain (c ∷ w) [] [] [] true h)
    ∙ end_ends c w [] true

-- An empty pair of quotes before a plain word makes the word come out as quoted, though the same
-- word alone comes out as unquoted.
pub tokenize_stale_quote :
    (c : ℕ) (w : Text)
    → IsPlain (c ∷ w)
    → (tokenize (spaced ((c ∷ w) ∷ [])) ≡ word (c ∷ w) false ∷ [])
      × (tokenize (spaced (quoted [] ∷ (c ∷ w) ∷ [])) ≡ word (c ∷ w) true ∷ [])
unfolding spaced
tokenize_stale_quote c w h = (tokenize-spaced (plain c w ∷ []) (h, tt), after_quotes c w h)
