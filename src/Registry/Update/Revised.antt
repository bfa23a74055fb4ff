-- ===== src/Registry/Update/Revised.antt =====
-- What an update leaves in the files.
use learning_loop_template.Base.{
  ℕ, ◌≡◌, ◌≢◌, refl, sym, ap, ◌∙◌, if◌then◌else◌, String, true, false, not, ◌&&◌, Option, none,
  some, List, [], ◌∷◌, ◌++◌, Text, arith, Bool-cases, ◌⊎◌, inl, inr, ==_iff, ◌+◌, is_set, text_eq,
  any_of,
}
use learning_loop_template.Json.{Json, str}
use learning_loop_template.Registry.Entry.{Entry, version_of, is_change_log, is_rule}
use learning_loop_template.Registry.Projection.{Store, current}
use learning_loop_template.Registry.Projection.Append.{with_line}
use learning_loop_template.Registry.Lifecycle.Step.{Error, Result, ok, thrown}
use learning_loop_template.Registry.Patch.{Change, without}
use learning_loop_template.Registry.Fields.{entries_equal, rule_has_material_change}
use learning_loop_template.Registry.Files.{Disk, append_citation}
use learning_loop_template.Registry.Host.{Host}
use learning_loop_template.Registry.Citations.{Stamp, rule_supersession_citation, cite_or_restore}
use learning_loop_template.Registry.Refine.{
  kind_kept, cleaned, names_supersedes, supersedes_of, names_rule, is_truthy, Refined, invalid,
  supersedes_missing, refined, refine_rule, refine, next_version,
}
use learning_loop_template.Registry.Writes.Prepared.{append_line-cases, SameFiles}
use learning_loop_template.Registry.Update.{
  Updated, updated, missing, with_advice, conflicts, option_json, mismatched, is_empty,
  cite_supersession, update_appended, append_update, update_refined, update_clean, update_found,
  update_entry,
}

-- The changes that count of a patch, and the rule that it supersedes: for a rule the `supersedes` of
-- the patch is set apart, before the one among the options.
abbrev pub changes_of : Entry → List Change → List Change
changes_of e patch =
    if is_rule e.entry_kind && names_supersedes (cleaned patch)
    then without "supersedes" (cleaned patch)
    else cleaned patch

abbrev pub superseded_by : Option Text → Entry → List Change → Option Json
superseded_by option e patch =
    if is_rule e.entry_kind && names_supersedes (cleaned patch)
    then supersedes_of (cleaned patch)
    else option_json option

-- The citations after an update of the rule or entry `e`: as before, or one more for a rule, of what
-- it supersedes.
abbrev pub Cited : Stamp → String → Option Json → Entry → Store → Store → Type 0
Cited st id supersedes e s s' =
    (s'.citations ≡ s.citations)
    ⊎ ((v : Json) × (supersedes ≡ some v)
        × (is_rule e.entry_kind ≡ true)
        × (s'.citations ≡ s.citations ++ rule_supersession_citation st id v ∷ []))

module _ (h : Host) (st : Stamp) (id : String) (s : Store) (expected : Option ℕ)
    (option : Option Text) (patch : List Change) where
  -- `e` is the current line, of the expected version, and the patch makes `p` of it.
  abbrev pub Patched : Entry → Entry → Type 0
  Patched e p =
      (current s id ≡ some e)
      × ((v : ℕ) → expected ≡ some v → version_of e ≡ v)
      × (refine h e (changes_of e patch) (superseded_by option e patch) ≡ refined p)

  -- The reply is not `true`, and the files are as before; or it is, for a patch that makes nothing else
  -- of the current line, and they are as before too; or it is, and `meta-state.jsonl` has one more line:
  -- what the patch makes of the current line `e`, with the version after its. Where `e` is a rule and
  -- the line changes what it requires, the citation of the rule that it supersedes is there too.
  pub data Revised : Result Updated × Store → Type 0 where
    not_updated :
        (r : Result Updated) (s' : Store) → r ≢ ok updated → SameFiles s s' → Revised (r, s')
    no_effect :
        (e p : Entry) (s' : Store)
        → Patched e p
        → entries_equal h.stringify p e ≡ true
        → SameFiles s s'
        → Revised (ok updated, s')
    revised :
        (e p : Entry) (s' : Store)
        → Patched e p
        → entries_equal h.stringify p e ≡ false
        → (next_version e p).version ≡ some (version_of e + 1)
        → s'.meta_state ≡ s.meta_state ++ next_version e p ∷ []
        → s'.change_log ≡ s.change_log
        → Cited st id (superseded_by option e patch) e s s'
        → (is_rule e.entry_kind && rule_has_material_change h.stringify e p ≡ true
            → (v : Json) × (superseded_by option e patch ≡ some v)
              × (s'.citations ≡ s.citations ++ rule_supersession_citation st id v ∷ []))
        → Revised (ok updated, s')

names_rule-is_truthy :
    (o : Option Json) → names_rule o ≡ true → (v : Json) × (o ≡ some v) × (is_truthy v ≡ true)
unfolding names_rule is_truthy any_of text_eq
names_rule-is_truthy none n = cc
names_rule-is_truthy (some (str [])) n = cc
names_rule-is_truthy (some (str (c ∷ cs))) n = (str (c ∷ cs), refl, refl)
names_rule-is_truthy (some v) n = cc

module _ (h : Host) (e : Entry) (supersedes : Option Json) where
  abbrev Named : Entry → Type 0
  Named p =
      is_rule e.entry_kind && rule_has_material_change h.stringify e p ≡ true
      → names_rule supersedes ≡ true

  refine_rule-Named :
      (o : Option Entry) (p : Entry) → refine_rule h e supersedes o ≡ refined p → Named p
  unfolding refine_rule
  refine_rule-Named none p r m = cc
  refine_rule-Named (some q) p r m =
      let made : Entry = record q { version = some (version_of e) } in
      elim (Bool-cases (names_rule supersedes)) [
        | inl named ↦ named
        | inr silent ↦ elim (Bool-cases (rule_has_material_change h.stringify e made)) [
          | inl changed ↦
              let refusal : supersedes_missing ≡ refined p = rw (changed, silent) at r in
              absurd (cc)
          | inr same ↦
              let passed : refined made ≡ refined p = rw same at r in
              let equal : made ≡ p = ground arith in
              let changed : rule_has_material_change h.stringify e p ≡ true = ground arith in
              let unlike = rw equal at same in absurd (cc)
        ]
      ]

  refine-Named : (cs : List Change) (p : Entry) → refine h e cs supersedes ≡ refined p → Named p
  unfolding refine
  refine-Named cs p r = elim (Bool-cases (is_rule e.entry_kind)) [
    | inl own ↦ refine_rule-Named _ p (rw own at r)
    | inr other ↦ λ m. let never : false ≡ true = rw other at m in absurd (cc)
  ]

module _ (h : Host) (fails : Disk) (st : Stamp) (id : String) (s : Store) (expected : Option ℕ)
    (option : Option Text) (patch : List Change) where
  abbrev Outcome : Result Updated × Store → Type 0
  Outcome = Revised h st id s expected option patch

  module _ (e p : Entry) (supersedes : Option Json)
      (made : Patched h st id s expected option patch e p)
      (unlike : entries_equal h.stringify p e ≡ false)
      (given : superseded_by option e patch ≡ supersedes)
      (named : is_rule e.entry_kind && rule_has_material_change h.stringify e p ≡ true
        → names_rule supersedes ≡ true) where
    abbrev Appended : Store → Type 0
    Appended s' =
        (s'.meta_state ≡ s.meta_state ++ next_version e p ∷ [])
        × (s'.change_log ≡ s.change_log)
        × (s'.citations ≡ s.citations)

    without_citation :
        (s' : Store)
        → Appended s'
        → ((v : Json) → supersedes ≡ some v → is_rule e.entry_kind && is_truthy v ≡ false)
        → Outcome (ok updated, s')
    without_citation s' (m, l, c) idle = revised e p s' made unlike refl m l (inl c) (λ material.
        let (v, here, truthy) = names_rule-is_truthy supersedes (named material) in
        let none_due = idle v here in absurd (ground arith))

    with_citation :
        (v : Json) (s' : Store)
        → Appended s'
        → supersedes ≡ some v
        → is_rule e.entry_kind ≡ true
        → Outcome (
            cite_or_restore updated s s'
              (append_citation (fails 1) (rule_supersession_citation st id v) s'))
    unfolding cite_or_restore append_citation
    with_citation v s' (m, l, c) here own = elim (Bool-cases (fails 1)) [
      | inl broken ↦ rw broken (not_updated _ _ (λ q. cc) (refl, l, refl))
      | inr fine ↦
          let cited : s'.citations ++ rule_supersession_citation st id v ∷ []
              ≡ s.citations ++ rule_supersession_citation st id v ∷ [] =
            rw c refl in
          let due : superseded_by option e patch ≡ some v = given ∙ here in
          rw fine (
            revised e p _ made unlike refl m l (inr (v, due, own, cited))
              (λ material. (v, due, cited)))
    ]

    cite_supersession-Revised :
        (o : Option Json) (s' : Store)
        → o ≡ supersedes
        → Appended s'
        → Outcome (cite_supersession h fails st id o e s s')
    unfolding cite_supersession
    cite_supersession-Revised none s' same new = without_citation s' new (λ v q. absurd (cc))
    cite_supersession-Revised (some w) s' same new =
        elim (Bool-cases (is_rule e.entry_kind && is_truthy w)) [
          | inl due ↦ rw due (with_citation w s' new (sym same) (ground arith))
          | inr idle ↦ rw idle (
              without_citation s' new
                (λ v q. let equal : w ≡ v = ground arith in rw (← equal) idle))
        ]

    update_appended-Revised :
        (s' : Store) (r : Result Store)
        → SameFiles s s'
        → (((x : Error) × (r ≡ thrown x)) ⊎ (r ≡ ok (with_line s' (next_version e p))))
        → Outcome (update_appended h fails st id supersedes e s s' r)
    unfolding update_appended
    update_appended-Revised s' r same (inl (x, broken)) = rw broken (not_updated _ _ (λ q. cc) same)
    update_appended-Revised s' r (m, l, c) (inr fine) = rw fine (
        cite_supersession-Revised supersedes (with_line s' (next_version e p)) refl
          (ap (λ ls. ls ++ next_version e p ∷ []) m, l, c))

  module _ (e : Entry) (found : current s id ≡ some e) where
    module _ (checked : (v : ℕ) → expected ≡ some v → version_of e ≡ v) where
      update_refined-Revised :
          (supersedes : Option Json) (cs : List Change) (r : Refined)
          → changes_of e patch ≡ cs
          → superseded_by option e patch ≡ supersedes
          → refine h e cs supersedes ≡ r
          → Outcome (update_refined h fails st id supersedes cs e r s)
      unfolding update_refined append_update rule_has_material_change
      update_refined-Revised supersedes cs invalid own given made =
          not_updated _ _ (λ q. cc) (refl, refl, refl)
      update_refined-Revised supersedes cs supersedes_missing own given made =
          not_updated _ _ (λ q. cc) (refl, refl, refl)
      update_refined-Revised supersedes cs (refined p) own given made =
          let patched : Patched h st id s expected option patch e p =
            (found, checked, rw (own, given) made) in
          elim (Bool-cases (entries_equal h.stringify p e)) [
            | inl same ↦ rw same (no_effect e p _ patched same (refl, refl, refl))
            | inr changed ↦
                let t : Entry = next_version e p in
                rw changed (
                  update_appended-Revised e p supersedes patched changed given
                    (refine-Named h e supersedes cs p made) (with_advice h id cs e t s) _
                    (refl, refl, refl) (append_line-cases (fails 0) t (with_advice h id cs e t s)))
          ]

      update_clean-Revised : Outcome (update_clean h fails st id option (cleaned patch) e s)
      unfolding update_clean
      update_clean-Revised =
          let cs = cleaned patch in
          elim (Bool-cases (is_rule e.entry_kind && names_supersedes cs)) [
            | inr plain ↦ rw plain (
                update_refined-Revised (option_json option) cs (refine h e cs (option_json option))
                  (rw plain refl) (rw plain refl) refl)
            | inl own ↦ elim (Bool-cases (conflicts option (supersedes_of cs))) [
              | inl clash ↦ rw (own, clash) (not_updated _ _ (λ q. cc) (refl, refl, refl))
              | inr fine ↦
                  rw (own, fine)
                    (update_refined-Revised (supersedes_of cs) (without "supersedes" cs)
                      (refine h e (without "supersedes" cs) (supersedes_of cs)) (rw own refl)
                      (rw own refl) refl)
            ]
          ]

    mismatched-checked :
        (o : Option ℕ) → mismatched o e ≡ false → (v : ℕ) → o ≡ some v → version_of e ≡ v
    mismatched-checked none m v p = cc
    mismatched-checked (some w) m v p = ground (arith, ==_iff (version_of e) w)

    update_found-Revised : Outcome (update_found h fails st id patch expected option e s)
    unfolding update_found
    update_found-Revised = elim (Bool-cases (is_change_log e.entry_kind)) [
      | inl log ↦ rw log (not_updated _ _ (λ q. cc) (refl, refl, refl))
      | inr a ↦ elim (Bool-cases (is_empty patch && not (is_set expected))) [
        | inl nothing ↦ rw (a, nothing) (not_updated _ _ (λ q. cc) (refl, refl, refl))
        | inr b ↦ elim (Bool-cases (kind_kept e.entry_kind (without "entry_kind" patch))) [
          | inr moved ↦ rw (a, b, moved) (not_updated _ _ (λ q. cc) (refl, refl, refl))
          | inl c ↦ elim (Bool-cases (mismatched expected e)) [
            | inl stale_version ↦
                rw (a, b, c, stale_version) (not_updated _ _ (λ q. cc) (refl, refl, refl))
            | inr fits ↦
                rw (a, b, c, fits) (update_clean-Revised (mismatched-checked expected fits))
          ]
        ]
      ]
    ]

  update_entry-found :
      (o : Option Entry)
      → current s id ≡ o
      → Outcome (elim o [
        | none ↦ (ok missing, s)
        | some e ↦ update_found h fails st id patch expected option e s
      ])
  update_entry-found none p = not_updated _ _ (λ q. cc) (refl, refl, refl)
  update_entry-found (some e) p = update_found-Revised e p

-- An update that does not reply `true` leaves the three files as they were, also where it throws after
-- the append of the new line. One that does leaves them too, where the patched entry is equal to the
-- current line, or has appended one line, the patched entry: then a given `_expected_version` is the
-- version of the current line, the new line has the next one, the change log is untouched, and no more
-- than one citation is new, of the rule that the update supersedes. It is there whenever the line
-- changes what a rule requires.
pub update_entry-Revised :
    (h : Host) (fails : Disk) (st : Stamp) (id : String) (patch : List Change) (expected : Option ℕ)
    (option : Option Text) (s : Store)
    → Revised h st id s expected option patch (update_entry h fails st id patch expected option s)
unfolding update_entry
update_entry-Revised h fails st id patch expected option s =
    update_entry-found h fails st id s expected option patch (current s id) refl
