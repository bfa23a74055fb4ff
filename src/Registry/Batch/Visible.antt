-- ===== src/Registry/Batch/Visible.antt =====
-- The change logs that a batch appends are visible (tools/learning-loop-mastra/core/meta-state.js,
-- `metaStateBatch`, the check after the appends).
use learning_loop_template.Base.{
  ◌≡◌, refl, true, false, not, List, [], ◌∷◌, ◌++◌, map, is_set, any_of, All, All-Has,
  All-append_left, All-append_right,
}
use mathlib.Core.Path.{subst}
use learning_loop_template.Registry.Entry.{Entry, read_line, with_defaults}
use learning_loop_template.Registry.Projection.{Store, lines_of, read_raw_lines, current}
use learning_loop_template.Registry.Projection.Found.{current-line}

abbrev IsShown : Store → Entry → Type 0
IsShown s t = is_set (current s t.id) ≡ true

IsShown-unread :
    (s : Store) (ts : List Entry) → All (IsShown s) (map read_line ts) → All (IsShown s) ts
unfolding read_line with_defaults
IsShown-unread s [] h = tt
IsShown-unread s (t ∷ ts) (now, later) = (now, IsShown-unread s ts later)

log_lines-IsShown : (s : Store) → All (IsShown s) (lines_of s.change_log)
unfolding read_raw_lines
log_lines-IsShown s = All-append_left (IsShown s) (lines_of s.change_log) s.citations (
    All-append_right (IsShown s) s.meta_state (lines_of s.change_log ++ s.citations)
      (IsShown-unread s _ (All-Has (IsShown s) (read_raw_lines s) (current-line s))))

none_hidden :
    (s : Store) (ts : List Entry)
    → All (IsShown s) ts
    → any_of (λ id. not (is_set (current s id))) (map (λ e. e.id) ts) ≡ false
unfolding any_of
none_hidden s [] h = refl
none_hidden s (t ∷ ts) (now, later) = rw (now, none_hidden s ts later) refl

-- Lines at the end of the change log are visible.
pub appended-visible :
    (s : Store) (old ts : List Entry)
    → lines_of s.change_log ≡ old ++ ts
    → any_of (λ id. not (is_set (current s id))) (map (λ e. e.id) ts) ≡ false
appended-visible s old ts lines =
    none_hidden s ts
      (All-append_right (IsShown s) old ts (subst (All (IsShown s)) lines (log_lines-IsShown s)))

-- So is the one more that an envelope emits, of which the check asks first.
pub emitted-visible :
    (s : Store) (old ts : List Entry) (t : Entry)
    → lines_of s.change_log ≡ old ++ (ts ++ t ∷ [])
    → any_of (λ id. not (is_set (current s id))) (t.id ∷ map (λ e. e.id) ts) ≡ false
emitted-visible s old ts t lines =
    let shown =
      All-append_right (IsShown s) old (ts ++ t ∷ [])
        (subst (All (IsShown s)) lines (log_lines-IsShown s)) in
    none_hidden s (t ∷ ts) (
      (All-append_right (IsShown s) ts (t ∷ []) shown).0,
      All-append_left (IsShown s) ts (t ∷ []) shown,
    )
