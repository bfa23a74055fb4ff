-- ===== src/Registry/Inverse/Agreement.antt =====
-- The inverse indexes agree with the walk over all entries.
use learning_loop_template.Base.{
  ◌≡◌, refl, sym, ap, ◌∙◌, String, true, false, ◌&&◌, Option, some, List, [], ◌∷◌, ◌++◌, map, Text,
  codes, if◌then◌else◌, str_eq, eq_iff, text_eq, text_eq_refl, text_eq_sound, select, append_assoc,
  append-nil, All, All-append, arith, Bool-cases, inl, inr,
}
use learning_loop_template.Registry.Entry.{Entry, Kind, citation, is_citation}
use learning_loop_template.Registry.Projection.{Ref}
use learning_loop_template.Registry.References.{cross_refs, forward_refs, refs_of}
use learning_loop_template.Registry.Inverse.{
  Inbound, inbound_of, inbound_refs, inverse_from, inverse_refs, Index, sources_of, Indexes,
  new_index_state, push_to_index, index_ref, index_refs, index_from, build_inverse_indexes,
}

sources_of-push_to_index :
    (k id v : Text) (m : Index)
    → sources_of id (push_to_index k v m)
      ≡ (if text_eq k id then sources_of id m ++ v ∷ [] else sources_of id m)
unfolding sources_of push_to_index
sources_of-push_to_index k id v [] = refl
sources_of-push_to_index k id v ((j, vs) ∷ m) = elim (Bool-cases (text_eq j k)) [
  | inl here ↦
      let same : j ≡ k = text_eq_sound j k here in
      rw here (
        rw same
          (elim (Bool-cases (text_eq k id)) [ inl own ↦ rw own refl | inr other ↦ rw other refl ]))
  | inr apart ↦
      rw (apart, sources_of-push_to_index k id v m)
        (elim (Bool-cases (text_eq j id)) [
          | inl own ↦
              let equal : j ≡ id = text_eq_sound j id own in
              elim (Bool-cases (text_eq k id)) [
                | inl same ↦
                    let again : k ≡ id = text_eq_sound k id same in
                    let clash : text_eq j k ≡ true = rw (equal, again) (text_eq_refl id) in
                    absurd (cc)
                | inr fine ↦ rw (own, fine) refl
              ]
          | inr other ↦ elim (Bool-cases (text_eq k id)) [
            | inl same ↦ rw (other, same) refl
            | inr fine ↦ rw (other, fine) refl
          ]
        ])
]

-- The sources of the references in one field.
abbrev pub sources_by : String → List Inbound → List Text
sources_by f rs = map (λ r. r.source) (select (λ r. str_eq r.field_name f) rs)

sources_by-append :
    (f : String) (xs ys : List Inbound)
    → sources_by f (xs ++ ys) ≡ sources_by f xs ++ sources_by f ys
unfolding select
sources_by-append f [] ys = refl
sources_by-append f (x ∷ xs) ys = elim (Bool-cases (str_eq x.field_name f)) [
  | inl own ↦ rw (own, sources_by-append f xs ys) refl
  | inr other ↦ rw (other, sources_by-append f xs ys) refl
]

-- A citation has no reference in the field.
abbrev IsApart : String → Entry → Ref → Type 0
IsApart f e r = is_citation e.entry_kind ≡ true → str_eq r.field_name f ≡ false

fields-IsApart :
    (f g : String) (e : Entry) (ts : List Text)
    → (is_citation e.entry_kind ≡ true → str_eq g f ≡ false)
    → All (IsApart f e) (map (λ t. record { field_name = g; target = t }) ts)
fields-IsApart f g e [] h = tt
fields-IsApart f g e (t ∷ ts) h = (h, fields-IsApart f g e ts h)

refs_of-IsApart :
    (f : String) (e : Entry) (gs : List String)
    → (is_citation e.entry_kind ≡ true → All (λ g. str_eq g f ≡ false) gs)
    → All (IsApart f e) (refs_of e gs)
unfolding refs_of
refs_of-IsApart f e [] h = tt
refs_of-IsApart f e (g ∷ gs) h =
    All-append (IsApart f e) _ (refs_of e gs) (fields-IsApart f g e _ (λ c. (h c).0))
      (refs_of-IsApart f e gs (λ c. (h c).1))

-- A field of references with an index, where an entry other than a citation is the source.
module _ (f : String) (index : Indexes → Index)
    (stepped : (e : Entry) (r : Ref) (x : Indexes)
      → IsApart f e r
      → index (index_ref e r x) ≡ (
          if str_eq r.field_name f then push_to_index r.target (codes e.id) (index x) else index x))
    (apart : (e : Entry) → All (IsApart f e) (forward_refs e)) (empty : index new_index_state ≡ [])
    (no_target : str_eq "target" f ≡ false) where
  inbound_of-field :
      (all : List Entry) (e : Entry) (r : Ref)
      → IsApart f e r
      → (str_eq (inbound_of all e r).field_name f ≡ str_eq r.field_name f)
        × (str_eq r.field_name f ≡ true → (inbound_of all e r).source ≡ codes e.id)
  unfolding inbound_of
  inbound_of-field all e r h =
      elim (Bool-cases (is_citation e.entry_kind && str_eq r.field_name "target")) [
        | inl cites ↦
            let own : str_eq r.field_name f ≡ false = h (ground arith) in
            rw (cites, own) (no_target, λ p. cc)
        | inr plain ↦ rw plain (refl, λ p. refl)
      ]

  index_refs_lem :
      (all : List Entry) (id : Text) (e : Entry) (rs : List Ref) (x : Indexes)
      → All (IsApart f e) rs
      → sources_of id (index (index_refs e rs x))
        ≡ sources_of id (index x) ++ sources_by f (inbound_refs all id e rs)
  unfolding index_refs inbound_refs select
  index_refs_lem all id e [] x h = sym (append-nil _)
  index_refs_lem all id e (r ∷ rs) x (now, later) =
      let rest = index_refs_lem all id e rs (index_ref e r x) later in
      let (field_eq, source_eq) = inbound_of-field all e r now in
      let one = stepped e r x now in
      elim (Bool-cases (str_eq r.field_name f)) [
        | inr other ↦
            let here : index (index_ref e r x) ≡ index x = rw other at one in
            let skipped : str_eq (inbound_of all e r).field_name f ≡ false = field_eq ∙ other in
            elim (Bool-cases (text_eq r.target id)) [
              | inl aims ↦ rw (aims, skipped, ← here) rest
              | inr misses ↦ rw (misses, ← here) rest
            ]
        | inl own ↦
            let here : index (index_ref e r x) ≡ push_to_index r.target (codes e.id) (index x) =
              rw own at one in
            let kept : str_eq (inbound_of all e r).field_name f ≡ true = field_eq ∙ own in
            let from : (inbound_of all e r).source ≡ codes e.id = source_eq own in
            let pushed = sources_of-push_to_index r.target id (codes e.id) (index x) in
            elim (Bool-cases (text_eq r.target id)) [
              | inl aims ↦
                  let added : sources_of id (push_to_index r.target (codes e.id) (index x))
                      ≡ sources_of id (index x) ++ codes e.id ∷ [] =
                    rw aims at pushed in
                  let grown : sources_of id (index (index_ref e r x))
                      ≡ sources_of id (index x) ++ codes e.id ∷ [] =
                    rw here added in
                  let whole : sources_of id (index (index_refs e rs (index_ref e r x)))
                      ≡ sources_of id (index x)
                        ++ codes e.id ∷ sources_by f (inbound_refs all id e rs) =
                    rest
                    ∙ ap (λ z. z ++ sources_by f (inbound_refs all id e rs)) grown
                    ∙ append_assoc (sources_of id (index x)) (codes e.id ∷ []) _ in
                  rw (aims, kept, from) whole
              | inr misses ↦
                  let same : sources_of id (push_to_index r.target (codes e.id) (index x))
                      ≡ sources_of id (index x) =
                    rw misses at pushed in
                  let still : sources_of id (index (index_ref e r x)) ≡ sources_of id (index x) =
                    rw here same in
                  rw (misses, ← still) rest
            ]
      ]

  index_from_lem :
      (all : List Entry) (id : Text) (es : List Entry) (x : Indexes)
      → sources_of id (index (index_from x es))
        ≡ sources_of id (index x) ++ sources_by f (inverse_from all id es)
  unfolding index_from inverse_from select
  index_from_lem all id [] x = sym (append-nil _)
  index_from_lem all id (e ∷ es) x =
      index_from_lem all id es (index_refs e (forward_refs e) x)
      ∙ ap (λ z. z ++ sources_by f (inverse_from all id es))
          (index_refs_lem all id e (forward_refs e) x (apart e))
      ∙ append_assoc (sources_of id (index x)) _ _
      ∙ ap (λ z. sources_of id (index x) ++ z)
          (sym
            (sources_by-append f (inbound_refs all id e (forward_refs e)) (inverse_from all id es)))

  index_agrees :
      (id : Text) (es : List Entry)
      → sources_of id (index (build_inverse_indexes es)) ≡ sources_by f (inverse_refs id es)
  unfolding build_inverse_indexes inverse_refs sources_of
  index_agrees id es = index_from_lem es id es new_index_state ∙ (rw empty refl)

reopens_stepped :
    (e : Entry) (r : Ref) (x : Indexes)
    → IsApart "reopens" e r
    → (index_ref e r x).reopens_inverse ≡ (
        if str_eq r.field_name "reopens"
        then push_to_index r.target (codes e.id) x.reopens_inverse
        else x.reopens_inverse)
unfolding index_ref
reopens_stepped e r x h = elim (Bool-cases (str_eq r.field_name "reopens")) [
  | inl own ↦
      let same : r.field_name ≡ "reopens" = ground (arith, eq_iff r.field_name "reopens") in
      let plain : is_citation e.entry_kind ≡ false = ground arith in
      let unpromoted : str_eq r.field_name "promoted_to_rule" ≡ false = rw same refl in
      let no_addresses : str_eq r.field_name "addresses" ≡ false = rw same refl in
      let no_supersedes : str_eq r.field_name "supersedes" ≡ false = rw same refl in
      rw (unpromoted, plain, no_addresses, no_supersedes, own) refl
  | inr other ↦ elim (Bool-cases (str_eq r.field_name "promoted_to_rule")) [
    | inl a ↦ rw (a, other) refl
    | inr a ↦ elim (Bool-cases (is_citation e.entry_kind)) [
      | inl c ↦ elim (Bool-cases (str_eq r.field_name "target")) [
        | inl d ↦ rw (a, c, d, other) refl
        | inr d ↦ rw (a, c, d, other) refl
      ]
      | inr c ↦ elim (Bool-cases (str_eq r.field_name "addresses")) [
        | inl d ↦ rw (a, c, d, other) refl
        | inr d ↦ elim (Bool-cases (str_eq r.field_name "supersedes")) [
          | inl g ↦ rw (a, c, d, g, other) refl
          | inr g ↦ rw (a, c, d, g, other) refl
        ]
      ]
    ]
  ]
]

addresses_stepped :
    (e : Entry) (r : Ref) (x : Indexes)
    → IsApart "addresses" e r
    → (index_ref e r x).addresses_inverse ≡ (
        if str_eq r.field_name "addresses"
        then push_to_index r.target (codes e.id) x.addresses_inverse
        else x.addresses_inverse)
unfolding index_ref
addresses_stepped e r x h = elim (Bool-cases (str_eq r.field_name "addresses")) [
  | inl own ↦
      let same : r.field_name ≡ "addresses" = ground (arith, eq_iff r.field_name "addresses") in
      let plain : is_citation e.entry_kind ≡ false = ground arith in
      let unpromoted : str_eq r.field_name "promoted_to_rule" ≡ false = rw same refl in
      rw (unpromoted, plain, own) refl
  | inr other ↦ elim (Bool-cases (str_eq r.field_name "promoted_to_rule")) [
    | inl a ↦ rw (a, other) refl
    | inr a ↦ elim (Bool-cases (is_citation e.entry_kind)) [
      | inl c ↦ elim (Bool-cases (str_eq r.field_name "target")) [
        | inl d ↦ rw (a, c, d, other) refl
        | inr d ↦ rw (a, c, d, other) refl
      ]
      | inr c ↦ elim (Bool-cases (str_eq r.field_name "supersedes")) [
        | inl d ↦ rw (a, c, other, d) refl
        | inr d ↦ elim (Bool-cases (str_eq r.field_name "reopens")) [
          | inl g ↦ rw (a, c, other, d, g) refl
          | inr g ↦ rw (a, c, other, d, g) refl
        ]
      ]
    ]
  ]
]

forward_refs-IsApart :
    (f : String) (e : Entry)
    → str_eq "source" f ≡ false
    → str_eq "target" f ≡ false
    → All (IsApart f e) (forward_refs e)
forward_refs-IsApart f e a b =
    refs_of-IsApart f e (cross_refs e.entry_kind) (λ c. cited e.entry_kind c)
  where
    cited : (k : Option Kind) → is_citation k ≡ true → All (λ g. str_eq g f ≡ false) (cross_refs k)
    cited (some citation) c = (a, (b, tt))
    cited k c = cc

-- For every id, the inverse index of `reopens` has the ids of the entries that reopen it, and the one of
-- `addresses` the ids of those that address it, in the order in which the walk over all entries
-- finds them.
pub build_inverse_indexes-inverse_refs :
    (id : Text) (es : List Entry)
    → (sources_of id (build_inverse_indexes es).reopens_inverse
        ≡ sources_by "reopens" (inverse_refs id es))
      × (sources_of id (build_inverse_indexes es).addresses_inverse
          ≡ sources_by "addresses" (inverse_refs id es))
build_inverse_indexes-inverse_refs id es = (
  index_agrees "reopens" (λ x. x.reopens_inverse) reopens_stepped
      (λ e. forward_refs-IsApart "reopens" e refl refl) refl refl id es,
  index_agrees "addresses" (λ x. x.addresses_inverse) addresses_stepped
      (λ e. forward_refs-IsApart "addresses" e refl refl) refl refl id es,
)
