-- ===== src/Shell/Tokenizer/Tokens.antt =====
-- What the tokens of any command are.
use mathlib.Core.Path.{subst}
use learning_loop_template.Base.{
  ℕ, zero, suc, ◌≡◌, ◌≢◌, refl, Bool, true, false, not, ◌&&◌, Option, none, some, List, [], ◌∷◌,
  arith, ◌==◌, if◌then◌else◌, Text, codes, text_eq, any_of, All, All-append,
}
use learning_loop_template.Shell.Tokenizer.{
  Token, word, op, Scan, is_space, initial, flush_op, flush_buf, flush_string, three_op, two_op,
  is_one_op, first_op, read_op, outside_step, single_step, double_step, char_step, scan_step, scan,
  tokenize, plain_step,
}

-- The operators of the source's comment.
abbrev pub operators : List Text
operators =
    codes "<<<"
    ∷ codes ">>>"
    ∷ codes "&>>"
    ∷ codes "&&"
    ∷ codes "||"
    ∷ codes ">>"
    ∷ codes "<<"
    ∷ codes "&>"
    ∷ codes ">&"
    ∷ codes "|&"
    ∷ codes "<&"
    ∷ codes "|"
    ∷ codes ";"
    ∷ codes "&"
    ∷ codes "<"
    ∷ codes ">"
    ∷ codes "("
    ∷ codes ")"
    ∷ []

abbrev pub IsOperator : Text → Type 0
IsOperator o = any_of (text_eq o) operators ≡ true

-- A word that is not empty, or one of the operators.
abbrev pub IsToken : Token → Type 0
IsToken (word v q) = v ≢ []
IsToken (op o) = IsOperator o

three_op-IsOperator : (c : ℕ) (rest o : Text) → three_op c rest ≡ some o → IsOperator o
unfolding three_op any_of text_eq
three_op-IsOperator c (a ∷ b ∷ rest) o h = ground arith
three_op-IsOperator c (a ∷ []) o h = ground arith
three_op-IsOperator c [] o h = ground arith

two_op-IsOperator : (c : ℕ) (rest o : Text) → two_op c rest ≡ some o → IsOperator o
unfolding two_op any_of text_eq
two_op-IsOperator c (a ∷ rest) o h = ground arith
two_op-IsOperator c [] o h = ground arith

one_op-IsOperator : (c : ℕ) → is_one_op c ≡ true → IsOperator (c ∷ [])
unfolding is_one_op any_of text_eq
one_op-IsOperator c h = ground arith

read_op-IsOperator : (c : ℕ) (rest o : Text) (n : ℕ) → read_op c rest ≡ some (o, n) → IsOperator o
unfolding read_op
read_op-IsOperator c rest o n h =
    go (three_op c rest) (three_op-IsOperator c rest) (two_op c rest) (two_op-IsOperator c rest)
      (is_one_op c) refl h
  where
    go :
        (three : Option Text)
        → ((p : Text) → three ≡ some p → IsOperator p)
        → (two : Option Text) → ((p : Text) → two ≡ some p → IsOperator p)
        → (one : Bool) → is_one_op c ≡ one
        → first_op three two one c ≡ some (o, n)
        → IsOperator o
    go (some p) a two b one i e =
        let same : p ≡ o = ground arith in subst IsOperator same (a p refl)
    go none a (some p) b one i e =
        let same : p ≡ o = ground arith in subst IsOperator same (b p refl)
    go none a none b true i e =
        let same : (c ∷ []) ≡ o = ground arith in subst IsOperator same (one_op-IsOperator c i)
    go none a none b false i e = cc

abbrev AllTokens : Scan → Type 0
AllTokens s = All IsToken s.tokens

flush-AllTokens : (s : Scan) → AllTokens s → AllTokens (flush_string s)
flush-AllTokens s h = go s.buf
  where
    go : (b : Text) → AllTokens (flush_buf b s)
    go [] = h
    go (c ∷ cs) = All-append IsToken s.tokens (word (c ∷ cs) s.buf_quoted ∷ []) h ((λ e. cc), tt)

op-AllTokens :
    (s : Scan) (o : Text) (n : ℕ) → IsOperator o → AllTokens s → AllTokens (flush_op o n s)
unfolding flush_op
op-AllTokens s o n good h =
    All-append IsToken (flush_string s).tokens (op o ∷ []) (flush-AllTokens s h) (good, tt)

plain-AllTokens :
    (c : ℕ) (rest : Text) (s : Scan) → AllTokens s → AllTokens (plain_step (read_op c rest) c s)
plain-AllTokens c rest s h = go (read_op c rest) (read_op-IsOperator c rest)
  where
    go :
        (r : Option (Text × ℕ))
        → ((o : Text) (n : ℕ) → r ≡ some (o, n) → IsOperator o)
        → AllTokens (plain_step r c s)
    go none good = h
    go (some (o, n)) good = op-AllTokens s o n (good o n refl) h

if-AllTokens : (b : Bool) (s t : Scan) → AllTokens s → AllTokens t → AllTokens (if b then s else t)
if-AllTokens true s t h k = h
if-AllTokens false s t h k = k

outside-AllTokens :
    (c : ℕ) (rest : Text) (s : Scan) → AllTokens s → AllTokens (outside_step c rest s)
unfolding outside_step
outside-AllTokens c rest s h = if-AllTokens (c == b'\\') _ _ h (
    if-AllTokens (c == b'\'') _ _ h (
      if-AllTokens (c == b'"') _ _ h
        (if-AllTokens (is_space c) _ _ (flush-AllTokens s h) (plain-AllTokens c rest s h))))

char-AllTokens : (c : ℕ) (rest : Text) (s : Scan) → AllTokens s → AllTokens (char_step c rest s)
unfolding char_step single_step double_step
char-AllTokens c rest s h = if-AllTokens s.escape _ _ h (
    if-AllTokens (not s.in_single && not s.in_double) _ _ (outside-AllTokens c rest s h) (
      if-AllTokens s.in_single _ _ (if-AllTokens (c == b'\'') _ _ h h)
        (if-AllTokens (c == b'\\') _ _ h (if-AllTokens (c == b'"') _ _ h h))))

step-AllTokens : (n c : ℕ) (rest : Text) (s : Scan) → AllTokens s → AllTokens (scan_step n c rest s)
step-AllTokens zero c rest s h = char-AllTokens c rest s h
step-AllTokens (suc n) c rest s h = h

scan-AllTokens : (command : Text) (s : Scan) → AllTokens s → AllTokens (scan command s)
unfolding scan
scan-AllTokens [] s h = flush-AllTokens s h
scan-AllTokens (c ∷ rest) s h =
    scan-AllTokens rest (scan_step s.skip c rest s) (step-AllTokens s.skip c rest s h)

-- Every token of every command is a word that is not empty or one of the eighteen operators that
-- the source lists.
pub tokenize-IsToken : (command : Text) → All IsToken (tokenize command)
unfolding tokenize
tokenize-IsToken command = scan-AllTokens command initial tt
