-- ===== src/Registry/Batch/Growth.antt =====
-- The lines that appends add to the three files (tools/learning-loop-mastra/core/meta-state.js, `metaStateBatch`).
use learning_loop_template.Base.{
  ℕ, ◌≡◌, refl, sym, ap, ◌∙◌, Bool, true, false, ◌&&◌, Option, none, some, List, [], ◌∷◌, ◌++◌, suc,
  is_set, Bool-cases, inl, inr, ◌⊎◌, append_assoc, append-nil,
}
use learning_loop_template.Registry.Entry.{Entry, is_change_log, is_citation}
use learning_loop_template.Registry.Projection.{Store, lines_of}
use learning_loop_template.Registry.Lifecycle.Step.{Error, Result, ok, thrown, true_append}
use learning_loop_template.Registry.Files.{Disk, append_line, append_citation, append_change_log}
use learning_loop_template.Registry.Batch.Commit.{append_all}

-- `s'` has the lines `ms`, `ls` and `cs` more than `s`, at the ends of its three files.
abbrev pub Grown : List Entry → List Entry → List Entry → Store → Store → Type 0
Grown ms ls cs s s' =
    (s'.meta_state ≡ s.meta_state ++ ms)
    × (lines_of s'.change_log ≡ lines_of s.change_log ++ ls)
    × (s'.citations ≡ s.citations ++ cs)

pub Grown-trans :
    (ms ls cs ms' ls' cs' : List Entry) (s s' s'' : Store)
    → Grown ms ls cs s s'
    → Grown ms' ls' cs' s' s''
    → Grown (ms ++ ms') (ls ++ ls') (cs ++ cs') s s''
Grown-trans ms ls cs ms' ls' cs' s s' s'' (m, l, c) (m', l', c') = (
  m' ∙ ap (λ x. x ++ ms') m ∙ append_assoc s.meta_state ms ms',
  l' ∙ ap (λ x. x ++ ls') l ∙ append_assoc (lines_of s.change_log) ls ls',
  c' ∙ ap (λ x. x ++ cs') c ∙ append_assoc s.citations cs cs',
)

pub Grown-none : (s : Store) → Grown [] [] [] s s
Grown-none s = (sym (append-nil _), sym (append-nil _), sym (append-nil _))

-- All lines are there; or the appending broke, with the first of them.
abbrev pub Progress :
    (List Entry → Store → Store → Type 0) → List Entry → Store → Option Error × Store → Type 0
Progress adds ts s (none, s') = adds ts s s'
Progress adds ts s (some e, s') = (us : List Entry) × adds us s s'

-- One of the three appends.
module _ (step : Bool → Entry → Store → Result Store) (adds : List Entry → Store → Store → Type 0)
    (adds-nil : (s : Store) → adds [] s s)
    (adds-cons : (t : Entry) (ts : List Entry) (s s' s'' : Store)
      → adds (t ∷ []) s s'
      → adds ts s' s''
      → adds (t ∷ ts) s s'')
    (stepped : (b : Bool) (t : Entry) (s s' : Store)
      → step b t s ≡ ok s'
      → adds (t ∷ []) s s') where
  Result-cases : (r : Result Store) → ((s' : Store) × (r ≡ ok s')) ⊎ ((e : Error) × (r ≡ thrown e))
  Result-cases (ok s') = inl (s', refl)
  Result-cases (thrown e) = inr (e, refl)

  Progress-cons :
      (t : Entry) (ts : List Entry) (s s' : Store) (o : Option Error × Store)
      → adds (t ∷ []) s s'
      → Progress adds ts s' o
      → Progress adds (t ∷ ts) s o
  Progress-cons t ts s s' (none, s2) one rest = adds-cons t ts s s' s2 one rest
  Progress-cons t ts s s' (some e, s2) one (us, rest) = (t ∷ us, adds-cons t us s s' s2 one rest)

  pub append_all-Progress :
      (fails : Disk) (n : ℕ) (ts : List Entry) (s : Store)
      → Progress adds ts s (append_all step fails n ts s)
  unfolding append_all
  append_all-Progress fails n [] s = adds-nil s
  append_all-Progress fails n (t ∷ ts) s = elim (Result-cases (step (fails n) t s)) [
    | inl (s', fine) ↦
        rw (fine, append_all)
          (Progress-cons t ts s s' _ (stepped (fails n) t s s' fine)
            (append_all-Progress fails (suc n) ts s'))
    | inr (e, bad) ↦ rw (bad, append_all) ([], adds-nil s)
  ]

abbrev pub TableAdds : List Entry → Store → Store → Type 0
TableAdds ts = Grown ts [] []

abbrev pub CitationAdds : List Entry → Store → Store → Type 0
CitationAdds ts = Grown [] [] ts

abbrev pub LogAdds : List Entry → Store → Store → Type 0
LogAdds ts = Grown [] ts []

append_line-TableAdds :
    (b : Bool) (t : Entry) (s s' : Store) → append_line b t s ≡ ok s' → TableAdds (t ∷ []) s s'
unfolding append_line true_append
append_line-TableAdds true t s s' h = cc
append_line-TableAdds false t s s' h =
    elim (Bool-cases (is_set s.change_log && is_change_log t.entry_kind)) [
      | inl e ↦ let q : thrown _ ≡ ok s' = rw e at h in absurd (cc)
      | inr e ↦ elim (Bool-cases (is_citation t.entry_kind)) [
        | inl f ↦ let q : thrown _ ≡ ok s' = rw (e, f) at h in absurd (cc)
        | inr f ↦
            let q : ok (record s { meta_state = s.meta_state ++ t ∷ [] }) ≡ ok s' =
              rw (e, f) at h in
            let same : record s { meta_state = s.meta_state ++ t ∷ [] } ≡ s' = cc in
            rw (← same) (refl, sym (append-nil _), sym (append-nil _))
      ]
    ]

append_citation-CitationAdds :
    (b : Bool) (t : Entry) (s s' : Store)
    → append_citation b t s ≡ ok s'
    → CitationAdds (t ∷ []) s s'
unfolding append_citation
append_citation-CitationAdds b t s s' h = elim (Bool-cases (is_citation t.entry_kind)) [
  | inr e ↦ let q : thrown _ ≡ ok s' = rw e at h in absurd (cc)
  | inl e ↦ elim (Bool-cases b) [
    | inl f ↦ let q : thrown _ ≡ ok s' = rw (e, f) at h in absurd (cc)
    | inr f ↦
        let q : ok (record s { citations = s.citations ++ t ∷ [] }) ≡ ok s' = rw (e, f) at h in
        let same : record s { citations = s.citations ++ t ∷ [] } ≡ s' = cc in
        rw (← same) (sym (append-nil _), sym (append-nil _), refl)
  ]
]

pub append_change_log-LogAdds :
    (b : Bool) (t : Entry) (s s' : Store) → append_change_log b t s ≡ ok s' → LogAdds (t ∷ []) s s'
unfolding append_change_log
append_change_log-LogAdds b t s s' h = elim (Bool-cases (is_citation t.entry_kind)) [
  | inl e ↦ let q : thrown _ ≡ ok s' = rw e at h in absurd (cc)
  | inr e ↦ elim (Bool-cases b) [
    | inl f ↦ let q : thrown _ ≡ ok s' = rw (e, f) at h in absurd (cc)
    | inr f ↦
        let q : ok (record s { change_log = some (lines_of s.change_log ++ t ∷ []) }) ≡ ok s' =
          rw (e, f) at h in
        let same : record s { change_log = some (lines_of s.change_log ++ t ∷ []) } ≡ s' = cc in
        rw (← same) (sym (append-nil _), refl, sym (append-nil _))
  ]
]

pub table_progress :
    (fails : Disk) (n : ℕ) (ts : List Entry) (s : Store)
    → Progress TableAdds ts s (append_all append_line fails n ts s)
table_progress =
    append_all-Progress append_line TableAdds Grown-none
      (λ t ts s s' s''. Grown-trans (t ∷ []) [] [] ts [] [] s s' s'') append_line-TableAdds

pub citation_progress :
    (fails : Disk) (n : ℕ) (ts : List Entry) (s : Store)
    → Progress CitationAdds ts s (append_all append_citation fails n ts s)
citation_progress =
    append_all-Progress append_citation CitationAdds Grown-none
      (λ t ts s s' s''. Grown-trans [] [] (t ∷ []) [] [] ts s s' s'') append_citation-CitationAdds

pub log_progress :
    (fails : Disk) (n : ℕ) (ts : List Entry) (s : Store)
    → Progress LogAdds ts s (append_all append_change_log fails n ts s)
log_progress =
    append_all-Progress append_change_log LogAdds Grown-none
      (λ t ts s s' s''. Grown-trans [] (t ∷ []) [] [] ts [] s s' s'') append_change_log-LogAdds
