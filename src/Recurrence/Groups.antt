-- ===== src/Recurrence/Groups.antt =====
-- The groups of one session hold the lines of the log with their key.
use learning_loop_template.Base.{
  ◌≡◌, refl, sym, ap, ◌∙◌, Bool, true, false, ◌&&◌, List, [], ◌∷◌, ◌++◌, Text, if◌then◌else◌,
  text_eq, text_eq_refl, text_eq_sound, select, append_assoc, append-nil, All, Bool-cases, inl, inr,
  Has, Has-All,
}
use mathlib.Core.Path.{subst}
use learning_loop_template.Recurrence.{
  LogLine, Tracker, Group, add_to_group, session_key, new_group, is_counted, add_session_entry,
  session_groups_from, session_groups,
}

-- The lines of the group of a key, none where there is no such group.
unfoldable pub lines_of_group : Text → List Group → List LogLine
lines_of_group k [] = []
lines_of_group k (g ∷ gs) = if text_eq g.group_key k then g.entries else lines_of_group k gs

text_eq_trans_false :
    (a b c : Text) → text_eq a b ≡ false → text_eq b c ≡ true → text_eq a c ≡ false
text_eq_trans_false a b c h e = let same : b ≡ c = text_eq_sound b c e in rw (← same) h

text_eq_apart : (a b c : Text) → text_eq a b ≡ false → text_eq a c ≡ true → text_eq b c ≡ false
text_eq_apart a b c h e = elim (Bool-cases (text_eq b c)) [
  | inr apart ↦ apart
  | inl same ↦
      let ac : a ≡ c = text_eq_sound a c e in
      let bc : b ≡ c = text_eq_sound b c same in
      let clash : text_eq a b ≡ true = rw (ac, bc) (text_eq_refl c) in absurd (cc)
]

lines_of_group-add_to_group :
    (k : Text) (new : Group) (e : LogLine) (gs : List Group)
    → new.entries ≡ e ∷ []
    → lines_of_group k (add_to_group new e gs)
      ≡ (if text_eq new.group_key k then lines_of_group k gs ++ e ∷ [] else lines_of_group k gs)
unfolding lines_of_group add_to_group
lines_of_group-add_to_group k new e [] one = elim (Bool-cases (text_eq new.group_key k)) [
  | inl own ↦ rw own one
  | inr other ↦ rw other refl
]
lines_of_group-add_to_group k new e (g ∷ gs) one =
    elim (Bool-cases (text_eq g.group_key new.group_key)) [
      | inl here ↦
          let same : g.group_key ≡ new.group_key = text_eq_sound g.group_key new.group_key here in
          rw here (
            rw same (elim (Bool-cases (text_eq new.group_key k)) [
              | inl own ↦ rw own refl
              | inr other ↦ rw other refl
            ]))
      | inr apart ↦
          rw (apart, lines_of_group-add_to_group k new e gs one)
            (elim (Bool-cases (text_eq g.group_key k)) [
              | inl own ↦ rw (own, text_eq_apart g.group_key new.group_key k apart own) refl
              | inr other ↦ elim (Bool-cases (text_eq new.group_key k)) [
                | inl same ↦ rw (other, same) refl
                | inr fine ↦ rw (other, fine) refl
              ]
            ])
    ]

module _ (x : Tracker) (k : Text) where
  -- The line counts for the key.
  abbrev pub belongs : LogLine → Bool
  belongs e = is_counted x e && text_eq (session_key x e) k

  lines_of_group-add_session_entry :
      (e : LogLine) (gs : List Group)
      → lines_of_group k (add_session_entry x e gs)
        ≡ lines_of_group k gs ++ (if belongs e then e ∷ [] else [])
  unfolding add_session_entry
  lines_of_group-add_session_entry e gs = elim (Bool-cases (is_counted x e)) [
    | inr idle ↦ rw idle (sym (append-nil _))
    | inl counts ↦
        let added = lines_of_group-add_to_group k (new_group x e) e gs refl in
        elim (Bool-cases (text_eq (session_key x e) k)) [
          | inl own ↦ rw (counts, own) (rw own at added)
          | inr other ↦ rw (counts, other) ((rw other at added) ∙ sym (append-nil _))
        ]
  ]

  session_groups_from_lem :
      (gs : List Group) (es : List LogLine)
      → lines_of_group k (session_groups_from x gs es) ≡ lines_of_group k gs ++ select belongs es
  unfolding session_groups_from select
  session_groups_from_lem gs [] = sym (append-nil _)
  session_groups_from_lem gs (e ∷ es) =
      let rest = session_groups_from_lem (add_session_entry x e gs) es in
      let here = lines_of_group-add_session_entry e gs in
      elim (Bool-cases (belongs e)) [
        | inl own ↦
            let grown : lines_of_group k (add_session_entry x e gs)
                ≡ lines_of_group k gs ++ e ∷ [] =
              rw own at here in
            rw own (
              rest
              ∙ ap (λ z. z ++ select belongs es) grown
              ∙ append_assoc (lines_of_group k gs) (e ∷ []) (select belongs es))
        | inr other ↦
            let still : lines_of_group k (add_session_entry x e gs) ≡ lines_of_group k gs =
              (rw other at here) ∙ append-nil (lines_of_group k gs) in
            rw other (rest ∙ ap (λ z. z ++ select belongs es) still)
      ]

abbrev IsUnlike : Text → Group → Type 0
IsUnlike k g = text_eq k g.group_key ≡ false

-- No two groups have one key.
abbrev IsDistinct : List Group → Type 0
IsDistinct [] = Unit
IsDistinct (g ∷ gs) = All (IsUnlike g.group_key) gs × IsDistinct gs

add_to_group-IsUnlike :
    (k : Text) (new : Group) (e : LogLine) (gs : List Group)
    → text_eq k new.group_key ≡ false
    → All (IsUnlike k) gs
    → All (IsUnlike k) (add_to_group new e gs)
unfolding add_to_group
add_to_group-IsUnlike k new e [] h all = (h, tt)
add_to_group-IsUnlike k new e (g ∷ gs) h (now, later) =
    elim (Bool-cases (text_eq g.group_key new.group_key)) [
      | inl here ↦ rw here (now, later)
      | inr apart ↦ rw apart (now, add_to_group-IsUnlike k new e gs h later)
    ]

add_to_group-IsDistinct :
    (new : Group) (e : LogLine) (gs : List Group)
    → IsDistinct gs
    → IsDistinct (add_to_group new e gs)
unfolding add_to_group
add_to_group-IsDistinct new e [] d = (tt, tt)
add_to_group-IsDistinct new e (g ∷ gs) (unlike, d) =
    elim (Bool-cases (text_eq g.group_key new.group_key)) [
      | inl here ↦ rw here (unlike, d)
      | inr apart ↦ rw apart (
        add_to_group-IsUnlike g.group_key new e gs apart unlike,
        add_to_group-IsDistinct new e gs d,
      )
    ]

session_groups_from-IsDistinct :
    (x : Tracker) (gs : List Group) (es : List LogLine)
    → IsDistinct gs
    → IsDistinct (session_groups_from x gs es)
unfolding session_groups_from add_session_entry
session_groups_from-IsDistinct x gs [] d = d
session_groups_from-IsDistinct x gs (e ∷ es) d = elim (Bool-cases (is_counted x e)) [
  | inl counts ↦ rw counts (
      session_groups_from-IsDistinct x (add_to_group (new_group x e) e gs) es
        (add_to_group-IsDistinct (new_group x e) e gs d))
  | inr idle ↦ rw idle (session_groups_from-IsDistinct x gs es d)
]

lines_of_group-Has :
    (gs : List Group) (g : Group)
    → IsDistinct gs
    → Has g gs
    → lines_of_group g.group_key gs ≡ g.entries
unfolding lines_of_group
lines_of_group-Has [] g d h = absurd h
lines_of_group-Has (a ∷ gs) g (unlike, d) (inl here) =
    let own : text_eq a.group_key a.group_key ≡ true = text_eq_refl a.group_key in
    let whole : lines_of_group a.group_key (a ∷ gs) ≡ a.entries = rw (own, lines_of_group) refl in
    subst (λ y. lines_of_group y.group_key (a ∷ gs) ≡ y.entries) here whole
lines_of_group-Has (a ∷ gs) g (unlike, d) (inr later) =
    rw (Has-All (IsUnlike a.group_key) g gs unlike later) (lines_of_group-Has gs g d later)

-- A group of the map holds exactly the lines of the log that count for its key, in their order.
pub session_groups-lines :
    (x : Tracker) (es : List LogLine) (g : Group)
    → Has g (session_groups x es)
    → g.entries ≡ select (belongs x g.group_key) es
unfolding lines_of_group
session_groups-lines x es g here =
    sym
      (lines_of_group-Has (session_groups x es) g (session_groups_from-IsDistinct x [] es tt) here)
    ∙ session_groups_from_lem x g.group_key [] es
