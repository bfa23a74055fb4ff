-- ===== src/Registry/Writes/Promotion.antt =====
-- `writeRuleWithOriginCitationAtomic` of tools/learning-loop-mastra/core/meta-state.js: a rule and the
-- citation of the finding it comes from.
use learning_loop_template.Base.{
  ◌≡◌, refl, String, true, false, not, some, [], ◌∷◌, ◌++◌, if◌then◌else◌, Bool-cases, ◌⊎◌, inl,
  inr,
}
use learning_loop_template.Registry.Entry.{Entry, is_rule}
use learning_loop_template.Registry.Projection.{Store, rule_promotion_identity}
use learning_loop_template.Registry.Projection.Append.{with_line}
use learning_loop_template.Registry.Lifecycle.Step.{
  Error, rule_promotion_requires_rule_entry, Result, ok, thrown,
}
use learning_loop_template.Registry.Files.{Disk, append_line, versioned, append_citation}
use learning_loop_template.Registry.Host.{Host}
use learning_loop_template.Registry.Citations.{Stamp, rule_origin_citation, cite_or_restore}
use learning_loop_template.Registry.Writes.{prepare_write_entry}
use learning_loop_template.Registry.Writes.Prepared.{
  append_line-cases, SameFiles, prepare_write_entry-SameFiles, prepare_write_entry-ok,
}

-- `before` is the store when the snapshots are taken.
unfoldable pub promote_appended :
    Disk → Stamp → String → Entry → Store → Store → Result Store → Result Entry × Store
promote_appended fails st finding_id d before s (thrown e) = (thrown e, s)
promote_appended fails st finding_id d before s (ok s') =
    cite_or_restore d before s'
      (append_citation (fails 1) (rule_origin_citation st d.id finding_id) s')

unfoldable pub promote_prepared :
    Disk → Stamp → String → Store → Result Entry → Store → Result Entry × Store
promote_prepared fails st finding_id before (thrown e) s = (thrown e, s)
promote_prepared fails st finding_id before (ok d) s =
    if not (is_rule d.entry_kind)
    then (thrown rule_promotion_requires_rule_entry, s)
    else promote_appended fails st finding_id d before s (append_line (fails 0) (versioned d) s)

unfoldable pub write_rule_with_origin_citation :
    Host → Disk → Stamp → Entry → String → Store → Result Entry × Store
write_rule_with_origin_citation h fails st rule_entry finding_id s =
    let (r, s') = prepare_write_entry h false rule_promotion_identity rule_entry s in
    promote_prepared fails st finding_id s r s'

-- The entry passed the schema as a rule, and both lines are in the files; or neither is.
pub data Promoted (h : Host) (rule_entry : Entry) (st : Stamp) (finding_id : String) (s : Store)
    : Result Entry × Store → Type 0 where
  both :
      (d : Entry) (s' : Store)
      → h.parse_entry rule_entry ≡ some d
      → is_rule d.entry_kind ≡ true
      → s'.meta_state ≡ s.meta_state ++ versioned d ∷ []
      → s'.citations ≡ s.citations ++ rule_origin_citation st d.id finding_id ∷ []
      → s'.change_log ≡ s.change_log
      → Promoted h rule_entry st finding_id s (ok d, s')
  neither :
      (e : Error) (s' : Store)
      → SameFiles s s'
      → Promoted h rule_entry st finding_id s (thrown e, s')

module _ (h : Host) (rule_entry : Entry) (fails : Disk) (st : Stamp) (finding_id : String)
    (before s : Store) (same : SameFiles before s) where
  cite_or_restore-Promoted :
      (d : Entry)
      → h.parse_entry rule_entry ≡ some d
      → is_rule d.entry_kind ≡ true
      → Promoted h rule_entry st finding_id before (
          cite_or_restore d before (with_line s (versioned d)) (
            append_citation
              (fails 1)
              (rule_origin_citation st d.id finding_id)
              (with_line s (versioned d))))
  unfolding cite_or_restore append_citation
  cite_or_restore-Promoted d parsed own = elim (Bool-cases (fails 1)) [
    | inl broken ↦ rw broken (neither _ _ (refl, same.1, refl))
    | inr fine ↦ rw fine (both d _ parsed own (rw same.0 refl) (rw same.2 refl) same.1)
  ]

  promote_appended-Promoted :
      (d : Entry) (r : Result Store)
      → h.parse_entry rule_entry ≡ some d
      → is_rule d.entry_kind ≡ true
      → (((e : Error) × (r ≡ thrown e)) ⊎ (r ≡ ok (with_line s (versioned d))))
      → Promoted h rule_entry st finding_id before
          (promote_appended fails st finding_id d before s r)
  unfolding promote_appended
  promote_appended-Promoted d r parsed own (inl (e, broken)) = rw broken (neither e s same)
  promote_appended-Promoted d r parsed own (inr fine) =
      rw fine (cite_or_restore-Promoted d parsed own)

  promote_prepared-Promoted :
      (r : Result Entry)
      → ((d : Entry) → r ≡ ok d → h.parse_entry rule_entry ≡ some d)
      → Promoted h rule_entry st finding_id before (promote_prepared fails st finding_id before r s)
  unfolding promote_prepared
  promote_prepared-Promoted (thrown e) parsed = neither e s same
  promote_prepared-Promoted (ok d) parsed = elim (Bool-cases (is_rule d.entry_kind)) [
    | inr other ↦ rw other (neither _ _ same)
    | inl own ↦ rw own (
        promote_appended-Promoted d (append_line (fails 0) (versioned d) s) (parsed d refl) own
          (append_line-cases (fails 0) (versioned d) s))
  ]

-- A promotion returns what the schema parsed, which is a rule, and then its line and the citation of its finding are the only
-- new lines of the registry; or it throws, and then the three files are as they were, also where the
-- append of the citation fails after the rule's.
pub write_rule_with_origin_citation-Promoted :
    (h : Host) (fails : Disk) (st : Stamp) (e : Entry) (finding_id : String) (s : Store)
    → Promoted h e st finding_id s (write_rule_with_origin_citation h fails st e finding_id s)
unfolding write_rule_with_origin_citation
write_rule_with_origin_citation-Promoted h fails st e finding_id s =
    promote_prepared-Promoted h e fails st finding_id s _
      (prepare_write_entry-SameFiles h false rule_promotion_identity e s) _
      (prepare_write_entry-ok h false rule_promotion_identity e s)
