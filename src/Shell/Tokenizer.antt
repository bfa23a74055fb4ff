-- ===== src/Shell/Tokenizer.antt =====
-- `tokenize` of tools/learning-loop-mastra/core/shell-parse.js. A command is its UTF-16 code units.
pub mod Words
pub mod Tokens
use learning_loop_template.Base.{
  ℕ, zero, suc, ◌-◌, Bool, true, false, not, ◌&&◌, ◌||◌, Option, none, some, List, [], ◌∷◌, ◌++◌,
  ltb, leb, ◌==◌, if◌then◌else◌, Text, codes, ◌≡◌, refl,
}

pub data Token : Type 0 where
  word : Text → Bool → Token  -- the value, and whether it is quoted
  op : Text → Token

-- `/\s/`
unfoldable pub is_space : ℕ → Bool
is_space c =
    (leb 9 c && leb c 13)
    || c == 32
    || c == 160
    || c == 5760
    || (leb 8192 c && leb c 8202)
    || c == 8232
    || c == 8233
    || c == 8239
    || c == 8287
    || c == 12288
    || c == 65279

pub record Scan : Type 0 where
  pub tokens : List Token
  pub buf : Text
  pub buf_quoted : Bool
  pub in_single : Bool
  pub in_double : Bool
  pub escape : Bool
  pub skip : ℕ  -- how many of the next characters belong to an operator that is already read

abbrev pub initial : Scan
initial = record {
  tokens = [];
  buf = [];
  buf_quoted = false;
  in_single = false;
  in_double = false;
  escape = false;
  skip = 0;
}

-- `flushString` with the buffer given once more, to be matched on.
abbrev pub flush_buf : Text → Scan → Scan
flush_buf [] s = s
flush_buf (c ∷ cs) s = record s {
  tokens = s.tokens ++ word (c ∷ cs) s.buf_quoted ∷ [];
  buf = [];
  buf_quoted = false;
}

abbrev pub flush_string : Scan → Scan
flush_string s = flush_buf s.buf s

-- `flushOp`, and `i += op.length` by the count of characters still to pass.
unfoldable pub flush_op : Text → ℕ → Scan → Scan
flush_op o rest s =
    let t = flush_string s in record t { tokens = t.tokens ++ op o ∷ []; skip = rest }

abbrev pub push_char : ℕ → Scan → Scan
push_char c s = record s { buf = s.buf ++ c ∷ [] }

-- `command.slice(i, i + 3)` is one of the three-character operators.
unfoldable pub three_op : ℕ → Text → Option Text
three_op a (b ∷ c ∷ _) =
    if a == b'<' && (b == b'<' && c == b'<')
    then some (codes "<<<")
    else if a == b'>' && (b == b'>' && c == b'>')
    then some (codes ">>>")
    else if a == b'&' && (b == b'>' && c == b'>')
    then some (codes "&>>")
    else none
three_op _ _ = none

unfoldable pub two_op : ℕ → Text → Option Text
two_op a (b ∷ _) =
    if a == b'&' && b == b'&'
    then some (codes "&&")
    else if a == b'|' && b == b'|'
    then some (codes "||")
    else if a == b'>' && b == b'>'
    then some (codes ">>")
    else if a == b'<' && b == b'<'
    then some (codes "<<")
    else if a == b'&' && b == b'>'
    then some (codes "&>")
    else if a == b'>' && b == b'&'
    then some (codes ">&")
    else if a == b'|' && b == b'&'
    then some (codes "|&")
    else if a == b'<' && b == b'&'
    then some (codes "<&")
    else none
two_op _ _ = none

-- `"|&;<>()".includes(ch)`
unfoldable pub is_one_op : ℕ → Bool
is_one_op c =
    c == b'|' || c == b'&' || c == b';' || c == b'<' || c == b'>' || c == b'(' || c == b')'

-- Longest match first, with the number of characters still to pass.
abbrev pub first_op : Option Text → Option Text → Bool → ℕ → Option (Text × ℕ)
first_op (some o) two one c = some (o, 2)
first_op none (some o) one c = some (o, 1)
first_op none none true c = some (c ∷ [], 0)
first_op none none false c = none

-- The operator at the character `c` before `rest`.
unfoldable pub read_op : ℕ → Text → Option (Text × ℕ)
read_op c rest = first_op (three_op c rest) (two_op c rest) (is_one_op c) c

-- An operator, or a character of a word.
abbrev pub plain_step : Option (Text × ℕ) → ℕ → Scan → Scan
plain_step (some (o, rest)) c s = flush_op o rest s
plain_step none c s = push_char c s

-- One character outside quotes.
unfoldable pub outside_step : ℕ → Text → Scan → Scan
outside_step c rest s =
    if c == b'\\'
    then record s { escape = true }
    else if c == b'\''
    then record s { in_single = true; buf_quoted = true }
    else if c == b'"'
    then record s { in_double = true; buf_quoted = true }
    else if is_space c
    then flush_string s
    else plain_step (read_op c rest) c s

unfoldable pub single_step : ℕ → Scan → Scan
single_step c s = if c == b'\'' then record s { in_single = false } else push_char c s

unfoldable pub double_step : ℕ → Scan → Scan
double_step c s =
    if c == b'\\'
    then record s { escape = true }
    else if c == b'"'
    then record s { in_double = false }
    else push_char c s

-- The body of the loop at a character that no operator has consumed.
unfoldable pub char_step : ℕ → Text → Scan → Scan
char_step c rest s =
    if s.escape
    then record s { buf = s.buf ++ c ∷ []; escape = false }
    else if not s.in_single && not s.in_double
    then outside_step c rest s
    else if s.in_single
    then single_step c s
    else double_step c s

abbrev pub scan_step : ℕ → ℕ → Text → Scan → Scan
scan_step zero c rest s = char_step c rest s
scan_step (suc n) c rest s = record s { skip = n }

-- The loop, then the last `flushString()`.
unfoldable pub scan : Text → Scan → Scan
scan [] s = flush_string s
scan (c ∷ rest) s = scan rest (scan_step s.skip c rest s)

unfoldable pub tokenize : Text → List Token
unfolding scan char_step outside_step single_step double_step read_op three_op two_op is_one_op
    is_space flush_op
tokenize command = (scan command initial).tokens

-- Tests.
tokenize_pipe :
    tokenize (codes "cat 'a b'|grep \"x\"y>>out")
    ≡ word (codes "cat") false
      ∷ word (codes "a b") true
      ∷ op (codes "|")
      ∷ word (codes "grep") false
      ∷ word (codes "xy") true
      ∷ op (codes ">>")
      ∷ word (codes "out") false
      ∷ []
unfolding tokenize
tokenize_pipe = refl

tokenize_stale : tokenize (codes "'' a") ≡ word (codes "a") true ∷ []
unfolding tokenize
tokenize_stale = refl
