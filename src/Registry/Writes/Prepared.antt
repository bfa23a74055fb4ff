-- ===== src/Registry/Writes/Prepared.antt =====
-- What the prologue of the writes, `prepareWriteEntry`, does to the store.
use learning_loop_template.Base.{
  Bool, Bool-cases, Has, List, Option, String, [], false, inl, inr, is_set, none, refl, some,
  str_eq, true, ◌&&◌, ◌∷◌, ◌≡◌, ◌⊎◌,
}
use learning_loop_template.Registry.Entry.{Entry, is_rule, is_change_log, is_citation}
use learning_loop_template.Registry.Projection.{Store, Reason, read_registry, find_entry, current}
use learning_loop_template.Registry.Projection.Append.{current-same_files}
use learning_loop_template.Registry.Lifecycle.Step.{
  Error, io_error, change_log_leak, citation_leak, ok, thrown, true_append,
}
use learning_loop_template.Registry.Files.{append_line}
use learning_loop_template.Registry.Projection.Append.{with_line}
use learning_loop_template.Registry.Host.{Host}
use learning_loop_template.Registry.Writes.{
  is_identified, find_where, has_rule, supported, prepare_parsed, prepare_write_entry,
}

-- The three files of two stores are the same.
abbrev pub SameFiles : Store → Store → Type 0
SameFiles s s' =
    (s'.meta_state ≡ s.meta_state) × (s'.change_log ≡ s.change_log) × (s'.citations ≡ s.citations)

pub current-SameFiles : (s s' : Store) (id : String) → SameFiles s s' → current s' id ≡ current s id
current-SameFiles s s' id (m, l, c) = current-same_files s s' id m l c

pub prepare_parsed-SameFiles : (o : Option Entry) (s : Store) → SameFiles s (prepare_parsed o s).1
unfolding prepare_parsed
prepare_parsed-SameFiles none s = (refl, refl, refl)
prepare_parsed-SameFiles (some d) s =
    elim (Bool-cases (is_rule d.entry_kind && has_rule d.id (read_registry s))) [
      | inl e ↦ rw e (refl, refl, refl)
      | inr e ↦ rw e (refl, refl, refl)
    ]

pub prepare_write_entry-SameFiles :
    (h : Host) (b : Bool) (code : Reason) (e : Entry) (s : Store)
    → SameFiles s (prepare_write_entry h b code e s).1
unfolding prepare_write_entry
prepare_write_entry-SameFiles h b code e s = elim (Bool-cases (is_identified b e)) [
  | inr fail ↦ rw fail (refl, refl, refl)
  | inl pass ↦ rw pass (elim (Bool-cases (supported h e.entry_kind)) [
    | inr fail ↦ rw fail (refl, refl, refl)
    | inl fine ↦ rw fine (prepare_parsed-SameFiles (h.parse_entry e) s)
  ])
]

prepare_parsed-ok :
    (o : Option Entry) (s : Store) (d : Entry) → (prepare_parsed o s).0 ≡ ok d → o ≡ some d
unfolding prepare_parsed
prepare_parsed-ok none s d p = cc
prepare_parsed-ok (some c) s d p =
    elim (Bool-cases (is_rule c.entry_kind && has_rule c.id (read_registry s))) [
      | inl e ↦ let q : thrown _ ≡ ok d = rw e at p in absurd (cc)
      | inr e ↦ let q : ok c ≡ ok d = rw e at p in cc
    ]

-- A prologue that passes gives what the schema parsed.
pub prepare_write_entry-ok :
    (h : Host) (b : Bool) (code : Reason) (e : Entry) (s : Store) (d : Entry)
    → (prepare_write_entry h b code e s).0 ≡ ok d
    → (h.parse_entry e ≡ some d)
unfolding prepare_write_entry
prepare_write_entry-ok h b code e s d p = elim (Bool-cases (is_identified b e)) [
  | inr fail ↦ let q : thrown _ ≡ ok d = rw fail at p in absurd (cc)
  | inl pass ↦ elim (Bool-cases (supported h e.entry_kind)) [
    | inr fail ↦ let q : thrown _ ≡ ok d = rw (pass, fail) at p in absurd (cc)
    | inl fine ↦ prepare_parsed-ok (h.parse_entry e) s d (rw (pass, fine) at p)
  ]
]

pub find_where-none :
    (p : Entry → Bool) (es : List Entry) (x : Entry)
    → find_where p es ≡ none
    → Has x es
    → p x ≡ false
unfolding find_where
find_where-none p [] x h there = absurd there
find_where-none p (e ∷ es) x h there = elim (Bool-cases (p e)) [
  | inl pass ↦ let q : some e ≡ none = rw pass at h in absurd (cc)
  | inr fail ↦ elim there [
    | inl here ↦ rw (← here) fail
    | inr later ↦ find_where-none p es x (rw fail at h) later
  ]
]

pub find_entry-Has :
    (id : String) (es : List Entry) (x : Entry) → find_entry id es ≡ some x → Has x es
unfolding find_entry
find_entry-Has id [] x h = cc
find_entry-Has id (e ∷ es) x h = elim (Bool-cases (str_eq e.id id)) [
  | inl pass ↦ let q : some e ≡ some x = rw pass at h in inl (cc)
  | inr fail ↦ inr (find_entry-Has id es x (rw fail at h))
]

-- The append leaves the store or adds its line.
pub append_line-cases :
    (broken : Bool) (t : Entry) (s : Store)
    → ((e : Error) × (append_line broken t s ≡ thrown e))
      ⊎ (append_line broken t s ≡ ok (with_line s t))
unfolding append_line true_append
append_line-cases true t s = inl (io_error, refl)
append_line-cases false t s =
    elim (Bool-cases (is_set s.change_log && is_change_log t.entry_kind)) [
      | inl e ↦ inl (change_log_leak, rw e refl)
      | inr e ↦ elim (Bool-cases (is_citation t.entry_kind)) [
        | inl f ↦ inl (citation_leak, rw (e, f) refl)
        | inr f ↦ inr (rw (e, f) refl)
      ]
    ]
