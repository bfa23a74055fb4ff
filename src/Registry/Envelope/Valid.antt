-- ===== src/Registry/Envelope/Valid.antt =====
-- What `buildEnvelope` builds, `validateEnvelope` accepts.
use learning_loop_template.Base.{
  ◌≡◌, refl, String, true, false, none, some, List, [], ◌∷◌, ◌++◌, Text, codes, str_eq, eq_iff,
  text_eq, text_eq_refl, any_of, length, ltb, arith, Bool-cases, inl, inr,
}
use learning_loop_template.Json.{Json, get_field}
use learning_loop_template.Registry.Entry.{Entry}
use learning_loop_template.Registry.Ops.{BatchOp}
use learning_loop_template.Registry.Envelope.{
  built, not_built, content_hash, envelope_json, assemble, missing_ops, build_compatible,
  build_envelope,
}
use learning_loop_template.Registry.Envelope.Shape.{operation_envelope_kinds, has_control, has_dots}
use learning_loop_template.Registry.Envelope.Tally.{
  Counts, Counted, counted, uncounted, count_registry, counts_json,
}
use learning_loop_template.Registry.Envelope.Validation.{
  validate_fields, validate_record, validate_counts, validate_kind, validate_target, all_hex,
  is_digest, validate_content_hash, validate_envelope,
}

-- A SHA-256 digest has 64 hexadecimal digits.
abbrev pub IsHexDigest : Text → Type 0
IsHexDigest t = (length t ≡ 64) × (all_hex t ≡ true)

listed-kind :
    (kind : String) (ks : List String)
    → any_of (str_eq kind) ks ≡ true
    → any_of (λ k. text_eq (codes kind) (codes k)) ks ≡ true
unfolding any_of
listed-kind kind [] h = cc
listed-kind kind (k ∷ ks) h = elim (Bool-cases (str_eq kind k)) [
  | inl same ↦
      let equal : kind ≡ k = ground (arith, eq_iff kind k) in
      let own : text_eq (codes kind) (codes k) ≡ true = rw (← equal) (text_eq_refl (codes kind)) in
      rw own refl
  | inr other ↦ let rest = listed-kind kind ks (rw other at h) in ground arith
]

validate_counts-counts_json : (c : Counts) → validate_counts (some (counts_json c)) ≡ none
unfolding validate_counts validate_record validate_fields get_field any_of
validate_counts-counts_json c = refl

hash_valid : (t : Text) → IsHexDigest t → is_digest (codes "sha256:" ++ t) ≡ true
unfolding is_digest
hash_valid t (size, hex) = rw (size, hex) refl

module _ (stringify : Json → Text) (sha256 : Text → Text)
    (digests : (t : Text) → IsHexDigest (sha256 t)) where
  valid_parts :
      (kind : String) (target : Text) (pre post : Counts) (t : Text)
      → any_of (str_eq kind) operation_envelope_kinds ≡ true
      → text_eq target [] ≡ false
      → ltb 200 (length target) ≡ false
      → has_control target ≡ false
      → has_dots target ≡ false
      → validate_envelope
          (envelope_json stringify sha256 kind target pre post (codes "sha256:" ++ sha256 t))
        ≡ none
  unfolding validate_envelope validate_kind validate_target validate_content_hash get_field
  valid_parts kind target pre post t known full short printable plain =
      let digest = hash_valid (sha256 t) (digests t) in
      rw
        (
          listed-kind kind operation_envelope_kinds known,
          full,
          short,
          printable,
          plain,
          validate_counts-counts_json pre,
          validate_counts-counts_json post,
          digest,
        )
        refl

  module _ (kind : String) (target : Text) (v : Json)
      (known : any_of (str_eq kind) operation_envelope_kinds ≡ true)
      (full : text_eq target [] ≡ false) (short : ltb 200 (length target) ≡ false)
      (printable : has_control target ≡ false) (plain : has_dots target ≡ false) where
    assemble-valid :
        (t : Text) (pre post : Counted)
        → assemble stringify sha256 kind target (codes "sha256:" ++ sha256 t) pre post ≡ built v
        → validate_envelope v ≡ none
    unfolding assemble
    assemble-valid t (uncounted f) post h = cc
    assemble-valid t (counted a) (uncounted f) h = cc
    assemble-valid t (counted a) (counted b) h =
        let whole : Json =
          envelope_json stringify sha256 kind target a b (codes "sha256:" ++ sha256 t) in
        let same : whole ≡ v = cc in
        rw (← same) (valid_parts kind target a b t known full short printable plain)

    build_compatible-valid :
        (missing : List String) (ops : List BatchOp) (pre post : List Entry)
        → build_compatible stringify sha256 missing kind target ops pre post ≡ built v
        → validate_envelope v ≡ none
    unfolding build_compatible content_hash
    build_compatible-valid (m ∷ ms) ops pre post h = cc
    build_compatible-valid [] ops pre post h =
        assemble-valid _ (count_registry pre) (count_registry post) h

  -- An envelope that `buildEnvelope` returns passes `validateEnvelope`, if a digest has 64 hexadecimal
  -- digits.
  pub validate_envelope-build_envelope :
      (kind : String) (target : Text) (ops : List BatchOp) (pre post : List Entry) (v : Json)
      → build_envelope stringify sha256 kind target ops pre post ≡ built v
      → validate_envelope v ≡ none
  unfolding build_envelope
  validate_envelope-build_envelope kind target ops pre post v h =
      elim (Bool-cases (any_of (str_eq kind) operation_envelope_kinds)) [
        | inr a ↦ let q : not_built _ ≡ built v = rw a at h in absurd (cc)
        | inl a ↦ elim (Bool-cases (text_eq target [])) [
          | inl b ↦ let q : not_built _ ≡ built v = rw (a, b) at h in absurd (cc)
          | inr b ↦ elim (Bool-cases (ltb 200 (length target))) [
            | inl c ↦ let q : not_built _ ≡ built v = rw (a, b, c) at h in absurd (cc)
            | inr c ↦ elim (Bool-cases (has_control target)) [
              | inl d ↦ let q : not_built _ ≡ built v = rw (a, b, c, d) at h in absurd (cc)
              | inr d ↦ elim (Bool-cases (has_dots target)) [
                | inl e ↦ let q : not_built _ ≡ built v = rw (a, b, c, d, e) at h in absurd (cc)
                | inr e ↦
                    build_compatible-valid kind target v a b c d e (missing_ops kind ops) ops pre
                      post (rw (a, b, c, d, e) at h)
              ]
            ]
          ]
        ]
      ]
