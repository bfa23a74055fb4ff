-- ===== src/Registry/Batch/Refining.antt =====
-- What patches keep of an entry (tools/learning-loop-mastra/core/meta-state.js, `metaStateBatch`).
use learning_loop_template.Base.{
  ◌≡◌, refl, ◌∙◌, String, true, false, not, ◌&&◌, Option, some, List, [], ◌∷◌, eq_iff, any_of,
  arith, Bool-cases, Option-cases, inl, inr,
}
use learning_loop_template.Json.{Json}
use learning_loop_template.Registry.Entry.{Entry, version_of, is_rule, with_defaults}
use learning_loop_template.Registry.Patch.{Change, spread, is_key, is_denied, key_of}
use learning_loop_template.Registry.Fields.{rule_has_material_change}
use learning_loop_template.Registry.Host.{Host, IsSound}
use learning_loop_template.Registry.Refine.{
  names_rule, invalid, supersedes_missing, refined, refine_rule, refine,
}
use learning_loop_template.Registry.Update.Applied.{names, spread-id}

-- A refined entry keeps its id.
module _ (h : Host) (sound : IsSound h) (e : Entry) (supersedes : Option Json) where
  refine_rule-id :
      (x q : Entry)
      → x.id ≡ e.id
      → refine_rule h e supersedes (h.parse_rule x) ≡ refined q
      → q.id ≡ e.id
  unfolding refine_rule
  refine_rule-id x q same r = elim (Option-cases (h.parse_rule x)) [
    | inl never ↦ let z : invalid ≡ refined q = rw never at r in absurd (cc)
    | inr (d, parsed) ↦
        let made : Entry = record d { version = some (version_of e) } in
        elim (Bool-cases
          (rule_has_material_change h.stringify e made && not (names_rule supersedes))) [
            | inl silent ↦
                let z : supersedes_missing ≡ refined q = rw (parsed, silent) at r in absurd (cc)
            | inr fine ↦
                let z : refined made ≡ refined q = rw (parsed, fine) at r in
                let equal : made ≡ q = ground arith in
                rw (← equal) (sound.rule_id x d parsed ∙ same)
          ]
  ]

  pub refine-id :
      (cs : List Change) (q : Entry)
      → names "id" cs ≡ false
      → refine h e cs supersedes ≡ refined q
      → q.id ≡ e.id
  unfolding refine with_defaults
  refine-id cs q own r = elim (Bool-cases (is_rule e.entry_kind)) [
    | inl is_a_rule ↦
        refine_rule-id (with_defaults (spread e cs)) q (spread-id cs e own) (rw is_a_rule at r)
    | inr other ↦
        let z : refined (with_defaults (spread e cs)) ≡ refined q = rw other at r in
        let equal : with_defaults (spread e cs) ≡ q = ground arith in
        rw (← equal) (spread-id cs e own)
  ]

-- A denied key is no key of a patch that passed.
pub undenied-names :
    (k : String)
    → ((c : Change) → is_key k c ≡ true → is_denied c ≡ true)
    → (cs : List Change) → any_of is_denied cs ≡ false
    → names k cs ≡ false
unfolding any_of
undenied-names k denies [] h = refl
undenied-names k denies (c ∷ cs) h = elim (Bool-cases (is_key k c)) [
  | inl own ↦ let denied = denies c own in absurd (ground arith)
  | inr other ↦ rw other (undenied-names k denies cs (ground arith))
]

pub id-is_denied : (c : Change) → is_key "id" c ≡ true → is_denied c ≡ true
unfolding is_denied any_of
id-is_denied c own =
    let same : key_of c ≡ "id" = ground (arith, eq_iff (key_of c) "id") in rw same refl
