-- ===== src/Registry/Writes/Absent/OnePerKey.antt =====
-- `writeEntryIfAbsent` keeps the live recurring findings apart by their key.
use learning_loop_template.Base.{
  String, ◌≡◌, refl, ap, sym, ◌∙◌, true, false, Option, none, some, ◌⊎◌, arith, str_eq, eq_iff,
  Bool-cases, inl, inr,
}
use learning_loop_template.Registry.Entry.{Entry, read_line, with_defaults}
use learning_loop_template.Registry.Projection.{
  Store, write_if_absent_identity, read_registry, current,
}
use learning_loop_template.Registry.Projection.Append.{
  with_line, current-appended_fresh, current-with_line_other,
}
use learning_loop_template.Registry.Lifecycle.Step.{Error, Result, ok, thrown}
use learning_loop_template.Registry.Files.{Disk, append_line, versioned}
use learning_loop_template.Registry.Host.{Host, IsSound}
use learning_loop_template.Registry.Writes.{find_where, settle, opt_str_eq}
use learning_loop_template.Registry.Writes.Absent.{
  is_recurring, written, write_unless, write_absent_prepared, write_entry_if_absent,
}
use learning_loop_template.Registry.Writes.Prepared.{
  append_line-cases, SameFiles, current-SameFiles, prepare_write_entry-SameFiles,
  prepare_write_entry-ok, find_where-none, find_entry-Has,
}

-- Two ids never hold a live recurring finding of the same key.
abbrev pub OnePerKey : Store → Type 0
OnePerKey s =
    (a b : String) (key : String) (x y : Entry)
    → current s a ≡ some x
    → current s b ≡ some y
    → is_recurring (some key) x ≡ true
    → is_recurring (some key) y ≡ true
    → a ≡ b

OnePerKey-SameFiles : (s s' : Store) → SameFiles s s' → OnePerKey s → OnePerKey s'
OnePerKey-SameFiles s s' same one a b key x y fa fb =
    one a b key x y (sym (current-SameFiles s s' a same) ∙ fa)
      (sym (current-SameFiles s s' b same) ∙ fb)

module _ (s : Store) (t : Entry) (fresh : current s t.id ≡ none) where
  found-with_line :
      (a : String) (x : Entry)
      → current (with_line s t) a ≡ some x
      → ((t.id ≡ a) × (read_line t ≡ x)) ⊎ (current s a ≡ some x)
  found-with_line a x h = elim (Bool-cases (str_eq t.id a)) [
    | inl same ↦
        let own : t.id ≡ a = ground (arith, eq_iff t.id a) in
        let new : current (with_line s t) a ≡ some (read_line t) =
          current-appended_fresh s t a (rw (← own) fresh) own in
        inl (own, cc)
    | inr other ↦ inr (sym (current-with_line_other s t a other) ∙ h)
  ]

  OnePerKey-with_line :
      ((key : String)
        → is_recurring (some key) (read_line t) ≡ true
        → (b : String) (y : Entry) → current s b ≡ some y
        → is_recurring (some key) y ≡ false)
      → OnePerKey s
      → OnePerKey (with_line s t)
  OnePerKey-with_line alone one a b key x y fa fb ra rb = elim (found-with_line a x fa) [
    | inl (ia, ta) ↦ elim (found-with_line b y fb) [
      | inl (ib, tb) ↦ sym ia ∙ ib
      | inr ob ↦ let no_other = alone key (rw ta ra) b y ob in absurd (cc)
    ]
    | inr oa ↦ elim (found-with_line b y fb) [
      | inl (ib, tb) ↦ let no_other = alone key (rw tb rb) a x oa in absurd (cc)
      | inr ob ↦ one a b key x y oa ob ra rb
    ]
  ]

key_matches : (key : String) (o : Option String) → opt_str_eq o (some key) ≡ true → o ≡ some key
key_matches key none h = cc
key_matches key (some k) h = ap some (ground (arith, eq_iff k key))

recurring-key :
    (key : String) (t : Entry)
    → is_recurring (some key) (read_line t) ≡ true
    → t.recurrence_key ≡ some key
unfolding is_recurring read_line with_defaults
recurring-key key t h = key_matches key t.recurrence_key (ground arith)

alone-key :
    (s : Store) (t : Entry)
    → find_where (is_recurring t.recurrence_key) (read_registry s) ≡ none
    → (key : String) → is_recurring (some key) (read_line t) ≡ true
    → (b : String) (y : Entry) → current s b ≡ some y
    → is_recurring (some key) y ≡ false
unfolding current
alone-key s t free key r b y h = rw (recurring-key key t r) at (
    find_where-none (is_recurring t.recurrence_key) (read_registry s) y free
      (find_entry-Has b (read_registry s) y h))

settle-OnePerKey :
    (s : Store) (t : Entry) (r : Result Store)
    → (((e : Error) × (r ≡ thrown e)) ⊎ (r ≡ ok (with_line s t)))
    → OnePerKey s
    → OnePerKey (with_line s t)
    → OnePerKey (settle written r s).1
settle-OnePerKey s t r (inl (e, broken)) one new = rw broken one
settle-OnePerKey s t r (inr fine) one new = rw fine new

write_unless-OnePerKey :
    (fails : Disk) (o : Option Entry) (d : Entry) (s : Store)
    → find_where (is_recurring d.recurrence_key) (read_registry s) ≡ o
    → current s d.id ≡ none
    → OnePerKey s
    → OnePerKey (write_unless fails o d s).1
unfolding write_unless is_recurring
write_unless-OnePerKey fails (some e) d s found fresh one = one
write_unless-OnePerKey fails none d s found fresh one =
    settle-OnePerKey s (versioned d) (append_line (fails 0) (versioned d) s)
      (append_line-cases (fails 0) (versioned d) s) one
      (OnePerKey-with_line s (versioned d) fresh (alone-key s (versioned d) found) one)

module _ (h : Host) (sound : IsSound h) (fails : Disk) (e : Entry) where
  write_absent_prepared-OnePerKey :
      (r : Result Entry) (s : Store)
      → ((d : Entry) → r ≡ ok d → h.parse_entry e ≡ some d)
      → current s e.id ≡ none
      → OnePerKey s
      → OnePerKey (write_absent_prepared fails r s).1
  unfolding write_absent_prepared
  write_absent_prepared-OnePerKey (thrown x) s parsed fresh one = one
  write_absent_prepared-OnePerKey (ok d) s parsed fresh one =
      let p = parsed d refl in
      write_unless-OnePerKey fails (find_where (is_recurring d.recurrence_key) (read_registry s)) d
        s refl (rw (sound.entry_id e d p) fresh) one

  -- If no two ids hold live recurring findings of one key and the schema keeps the id of an entry, then
  -- none do after `writeEntryIfAbsent` of an entry with a new id, whether it writes, finds the key
  -- taken, refuses, or the append fails.
  pub write_entry_if_absent-OnePerKey :
      (s : Store)
      → current s e.id ≡ none
      → OnePerKey s
      → OnePerKey (write_entry_if_absent h fails e s).1
  unfolding write_entry_if_absent
  write_entry_if_absent-OnePerKey s fresh one =
      let same = prepare_write_entry-SameFiles h true write_if_absent_identity e s in
      write_absent_prepared-OnePerKey _ _
        (prepare_write_entry-ok h true write_if_absent_identity e s)
        (current-SameFiles s _ e.id same ∙ fresh) (OnePerKey-SameFiles s _ same one)
