-- ===== src/Tests/Shell.antt =====
-- Commands, and the theorems on the tokenizer and the policy view at them.
use learning_loop_template.Base.{
  ◌≡◌, refl, some, List, [], ◌∷◌, true, false, Text, codes, All, arith,
}
use learning_loop_template.Shell.Tokenizer.{Token, word, op, tokenize}
use learning_loop_template.Shell.Tokenizer.Words.{
  Arg, plain, single, IsArg, is_plain, spaced, quoted, tokenize-spaced, tokenize_stale_quote,
}
use learning_loop_template.Shell.Tokenizer.Tokens.{IsToken, tokenize-IsToken}
use learning_loop_template.Shell.Policy.{classify_policy_tokens}
use learning_loop_template.Shell.Policy.Verb.{
  has, command_prefixes, is_env_assignment, is_flag, pass_value, resolve_from, resolve_verb_index,
}
use learning_loop_template.Shell.Policy.VerbLaws.{IsVerb}
use learning_loop_template.Shell.Policy.Laws.{IsWired, classify-IsWired}

-- `rm 'a b'`
abbrev remove_args : List Arg
remove_args = plain b'r' (codes "m") ∷ single b'a' (codes " b") ∷ []

remove_args-IsArg : All IsArg remove_args
unfolding is_plain
remove_args-IsArg =
    ((refl, (refl, tt)), (((λ e. omega arith), ((λ e. omega arith), ((λ e. omega arith), tt))), tt))

tokenize-spaced_example :
    tokenize (codes "rm 'a b'") ≡ word (codes "rm") false ∷ word (codes "a b") true ∷ []
unfolding spaced
tokenize-spaced_example = tokenize-spaced remove_args remove_args-IsArg

tokenize_stale_quote_example :
    (tokenize (spaced (codes "rm" ∷ [])) ≡ word (codes "rm") false ∷ [])
    × (tokenize (spaced (quoted [] ∷ codes "rm" ∷ [])) ≡ word (codes "rm") true ∷ [])
unfolding is_plain
tokenize_stale_quote_example = tokenize_stale_quote b'r' (codes "m") (refl, (refl, tt))

tokenize-IsToken_example : All IsToken (tokenize (codes "cat x | sh &> log"))
tokenize-IsToken_example = tokenize-IsToken (codes "cat x | sh &> log")

abbrev piped : List Token
piped = word (codes "cat") false ∷ op (codes "|") ∷ word (codes "sh") false ∷ []

classify-IsWired_example : IsWired (classify_policy_tokens (codes "cat x | sh")).segments
classify-IsWired_example = classify-IsWired (codes "cat x | sh")

-- `sudo -u root A=1 rm`
abbrev sudo_words : List Text
sudo_words = codes "sudo" ∷ codes "-u" ∷ codes "root" ∷ codes "A=1" ∷ codes "rm" ∷ []

sudo_words_at : resolve_verb_index sudo_words ≡ some 4
unfolding resolve_verb_index resolve_from pass_value
sudo_words_at = refl

rm-IsVerb : IsVerb (codes "rm")
unfolding has is_env_assignment is_flag
rm-IsVerb = (refl, refl, refl)

time-IsPrefix : has command_prefixes (codes "time") ≡ true
unfolding has
time-IsPrefix = refl
