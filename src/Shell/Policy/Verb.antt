-- ===== src/Shell/Policy/Verb.antt =====
-- `resolveVerbIndex` and `basename` of tools/learning-loop-mastra/core/shell-parse.js.
use learning_loop_template.Base.{
  ℕ, suc, Bool, true, false, ◌&&◌, ◌||◌, Option, none, some, List, [], ◌∷◌, leb, ◌==◌,
  if◌then◌else◌, Text, codes, text_eq, any_of, drop,
}

-- `set.has(v)`
unfoldable pub has : List Text → Text → Bool
unfolding any_of text_eq
has set v = any_of (text_eq v) set

abbrev pub command_prefixes : List Text
command_prefixes = codes "sudo" ∷ codes "time" ∷ codes "nice" ∷ codes "nohup" ∷ codes "command" ∷ []

abbrev pub nice_value_flags : List Text
nice_value_flags = codes "-n" ∷ codes "--adjustment" ∷ []

abbrev pub sudo_value_flags : List Text
sudo_value_flags =
    codes "-u"
    ∷ codes "--user"
    ∷ codes "-g"
    ∷ codes "--group"
    ∷ codes "-h"
    ∷ codes "--host"
    ∷ codes "-p"
    ∷ codes "--prompt"
    ∷ codes "-C"
    ∷ codes "--close-from"
    ∷ codes "-T"
    ∷ codes "--command-timeout"
    ∷ []

-- `lastPrefix && PREFIX_VALUE_FLAGS[lastPrefix]?.has(v)`
unfoldable pub takes_value : Option Text → Text → Bool
unfolding has
takes_value none v = false
takes_value (some p) v =
    if text_eq p (codes "nice")
    then has nice_value_flags v
    else if text_eq p (codes "sudo")
    then has sudo_value_flags v
    else false

abbrev is_name_start : ℕ → Bool
is_name_start c = (leb b'A' c && leb c b'Z') || (leb b'a' c && leb c b'z') || c == b'_'

-- The rest of `/^[A-Za-z_][A-Za-z0-9_]*=/` after its first character.
unfoldable pub env_rest : Text → Bool
env_rest [] = false
env_rest (c ∷ cs) = c == b'=' || ((is_name_start c || (leb b'0' c && leb c b'9')) && env_rest cs)

unfoldable pub is_env_assignment : Text → Bool
unfolding env_rest
is_env_assignment [] = false
is_env_assignment (c ∷ cs) = is_name_start c && env_rest cs

-- `v.startsWith("-") && v.length > 1`
unfoldable pub is_flag : Text → Bool
is_flag (c ∷ d ∷ cs) = c == b'-'
is_flag _ = false

-- One round of the loop: `none` at the verb, else the new `lastPrefix` and `skipValueOfFlag`.
unfoldable pub pass_value : Option Text → Bool → Text → Option (Option Text × Bool)
unfolding has takes_value is_env_assignment is_flag
pass_value last true v = some (last, false)
pass_value last false v =
    if has command_prefixes v
    then some (some v, false)
    else if is_env_assignment v
    then some (last, false)
    else if is_flag v
    then some (last, takes_value last v)
    else none

-- The loop from the index `i` on; `none` stands for -1.
unfoldable pub resolve_from : ℕ → Option Text → Bool → List Text → Option ℕ
unfolding pass_value
resolve_from i last skip [] = none
resolve_from i last skip (v ∷ vs) = elim (pass_value last skip v) [
  | none ↦ some i
  | some (last', skip') ↦ resolve_from (suc i) last' skip' vs
]

unfoldable pub resolve_verb_index : List Text → Option ℕ
unfolding resolve_from
resolve_verb_index values = resolve_from 0 none false values

-- `p.lastIndexOf("/")`; `none` stands for -1.
unfoldable pub last_slash : Text → Option ℕ
last_slash [] = none
last_slash (c ∷ cs) = elim (last_slash cs) [
  | some i ↦ some (suc i)
  | none ↦ if c == b'/' then some 0 else none
]

abbrev after_slash : Option ℕ → Text → Text
after_slash none p = p
after_slash (some i) p = drop (suc i) p

unfoldable pub basename : Text → Text
unfolding last_slash
basename p = after_slash (last_slash p) p
