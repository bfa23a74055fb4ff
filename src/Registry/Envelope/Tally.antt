-- ===== src/Registry/Envelope/Tally.antt =====
-- Counts of a registry by status and kind (tools/learning-loop-mastra/core/operation-envelope.js).
use learning_loop_template.Base.{
  ℕ, ◌+◌, ◌≡◌, refl, Option, none, some, List, [], ◌∷◌, arith, length, suc, Option-cases, inl, inr,
  ◌⊎◌,
}
use learning_loop_template.Json.{Json, num, obj, Fields, bare, field}
use learning_loop_template.Registry.Entry.{
  Entry, Status, opened, resolved, accepted, archived, superseded, active, reported, stale, Kind,
  finding, change_log, rule, loop_design,
}

unfoldable pub normalize_legacy_status : Option Status → Option Status
normalize_legacy_status (some active) = some opened
normalize_legacy_status (some reported) = some opened
normalize_legacy_status (some stale) = some opened
normalize_legacy_status (some superseded) = some resolved
normalize_legacy_status st = st

pub record Counts : Type 0 where
  pub total : ℕ
  pub open_count : ℕ
  pub resolved_count : ℕ
  pub accepted_count : ℕ
  pub archived_count : ℕ
  pub finding_count : ℕ
  pub change_log_count : ℕ
  pub rule_count : ℕ
  pub loop_design_count : ℕ

-- `emptyCounts`
abbrev pub empty_counts : Counts
empty_counts = record {
  total = 0;
  open_count = 0;
  resolved_count = 0;
  accepted_count = 0;
  archived_count = 0;
  finding_count = 0;
  change_log_count = 0;
  rule_count = 0;
  loop_design_count = 0;
}

pub data CountFault : Type 0 where
  unknown_status : Option Status → CountFault
  unknown_entry_kind : Option Kind → CountFault

pub data Counted : Type 0 where
  counted : Counts → Counted
  uncounted : CountFault → Counted

-- `none` where the status is no canonical key.
unfoldable pub count_status : Option Status → Counts → Option Counts
count_status (some opened) c = some (record c { open_count = suc c.open_count })
count_status (some resolved) c = some (record c { resolved_count = suc c.resolved_count })
count_status (some accepted) c = some (record c { accepted_count = suc c.accepted_count })
count_status (some archived) c = some (record c { archived_count = suc c.archived_count })
count_status st c = none

unfoldable pub count_kind : Option Kind → Counts → Option Counts
count_kind (some finding) c = some (record c { finding_count = suc c.finding_count })
count_kind (some change_log) c = some (record c { change_log_count = suc c.change_log_count })
count_kind (some rule) c = some (record c { rule_count = suc c.rule_count })
count_kind (some loop_design) c = some (record c { loop_design_count = suc c.loop_design_count })
count_kind k c = none

unfoldable pub kind_step : Entry → Option Counts → Counted
kind_step e none = uncounted (unknown_entry_kind e.entry_kind)
kind_step e (some c) = counted c

unfoldable pub status_step : Entry → Option Counts → Counted
status_step e none = uncounted (unknown_status e.status)
status_step e (some c) = kind_step e (count_kind e.entry_kind c)

unfoldable pub count_entry : Entry → Counts → Counted
count_entry e c =
    status_step e
      (count_status (normalize_legacy_status e.status) (record c { total = suc c.total }))

unfoldable pub count_from : Counts → List Entry → Counted
count_from c [] = counted c
count_from c (e ∷ es) = elim (count_entry e c) [
  | counted d ↦ count_from d es
  | uncounted f ↦ uncounted f
]

unfoldable pub count_registry : List Entry → Counted
count_registry = count_from empty_counts

abbrev pub status_fields : Counts → Fields
status_fields c = field "open" (num c.open_count) (
    field "resolved" (num c.resolved_count)
      (field "accepted" (num c.accepted_count) (field "archived" (num c.archived_count) bare)))

abbrev pub kind_fields : Counts → Fields
kind_fields c = field "finding" (num c.finding_count) (
    field "change-log" (num c.change_log_count)
      (field "rule" (num c.rule_count) (field "loop-design" (num c.loop_design_count) bare)))

abbrev pub counts_json : Counts → Json
counts_json c = obj (
    field "total" (num c.total)
      (field "by_status" (obj (status_fields c)) (field "by_kind" (obj (kind_fields c)) bare)))

abbrev pub IsBalanced : ℕ → Counts → Type 0
IsBalanced n c =
    (c.total ≡ n)
    × (c.open_count + c.resolved_count + c.accepted_count + c.archived_count ≡ n)
    × (c.finding_count + c.change_log_count + c.rule_count + c.loop_design_count ≡ n)

abbrev StatusCounted : ℕ → Counts → Type 0
StatusCounted n c =
    (c.total ≡ suc n)
    × (c.open_count + c.resolved_count + c.accepted_count + c.archived_count ≡ suc n)
    × (c.finding_count + c.change_log_count + c.rule_count + c.loop_design_count ≡ n)

count_status-StatusCounted :
    (st : Option Status) (n : ℕ) (c d : Counts)
    → IsBalanced n c
    → count_status st (record c { total = suc c.total }) ≡ some d
    → StatusCounted n d
unfolding count_status
count_status-StatusCounted (some opened) n c d b h = ground arith
count_status-StatusCounted (some resolved) n c d b h = ground arith
count_status-StatusCounted (some accepted) n c d b h = ground arith
count_status-StatusCounted (some archived) n c d b h = ground arith
count_status-StatusCounted st n c d b h = cc

count_kind-IsBalanced :
    (k : Option Kind) (n : ℕ) (c d : Counts)
    → StatusCounted n c
    → count_kind k c ≡ some d
    → IsBalanced (suc n) d
unfolding count_kind
count_kind-IsBalanced (some finding) n c d b h = ground arith
count_kind-IsBalanced (some change_log) n c d b h = ground arith
count_kind-IsBalanced (some rule) n c d b h = ground arith
count_kind-IsBalanced (some loop_design) n c d b h = ground arith
count_kind-IsBalanced k n c d b h = cc

kind_step-IsBalanced :
    (e : Entry) (n : ℕ) (c d : Counts)
    → StatusCounted n c
    → kind_step e (count_kind e.entry_kind c) ≡ counted d
    → IsBalanced (suc n) d
unfolding kind_step
kind_step-IsBalanced e n c d b h = elim (Option-cases (count_kind e.entry_kind c)) [
  | inl never ↦ let q : uncounted _ ≡ counted d = rw never at h in absurd (cc)
  | inr (x, made) ↦
      let q : counted x ≡ counted d = rw made at h in
      let same : x ≡ d = ground arith in
      count_kind-IsBalanced e.entry_kind n c d b (rw same at made)
]

count_entry-IsBalanced :
    (e : Entry) (n : ℕ) (c d : Counts)
    → IsBalanced n c
    → count_entry e c ≡ counted d
    → IsBalanced (suc n) d
unfolding count_entry status_step
count_entry-IsBalanced e n c d b h =
    let bumped : Counts = record c { total = suc c.total } in
    elim (Option-cases (count_status (normalize_legacy_status e.status) bumped)) [
      | inl never ↦ let q : uncounted _ ≡ counted d = rw never at h in absurd (cc)
      | inr (x, made) ↦
          kind_step-IsBalanced e n x d
            (count_status-StatusCounted (normalize_legacy_status e.status) n c x b made)
            (rw made at h)
    ]

pub Counted-cases :
    (r : Counted) → ((f : CountFault) × (r ≡ uncounted f)) ⊎ ((c : Counts) × (r ≡ counted c))
Counted-cases (counted c) = inr (c, refl)
Counted-cases (uncounted f) = inl (f, refl)

count_from-IsBalanced :
    (es : List Entry) (n : ℕ) (c d : Counts)
    → IsBalanced n c
    → count_from c es ≡ counted d
    → IsBalanced (n + length es) d
unfolding count_from
count_from-IsBalanced [] n c d b h = let same : c ≡ d = ground arith in ground arith
count_from-IsBalanced (e ∷ es) n c d b h = elim (Counted-cases (count_entry e c)) [
  | inl (f, never) ↦ let q : uncounted f ≡ counted d = rw (never, count_from) at h in absurd (cc)
  | inr (x, made) ↦
      let (t, st, k) =
        count_from-IsBalanced es (suc n) x d (count_entry-IsBalanced e n c x b made)
          (rw (made, count_from) at h) in
      (omega arith, omega arith, omega arith)
]

-- Where the counting of a registry succeeds, the total, the sum of the counts by status and the sum of
-- the counts by kind are each the number of entries.
pub count_registry-IsBalanced :
    (es : List Entry) (c : Counts) → count_registry es ≡ counted c → IsBalanced (length es) c
unfolding count_registry
count_registry-IsBalanced es c h =
    let (t, st, k) = count_from-IsBalanced es 0 empty_counts c (refl, refl, refl) h in
    (omega arith, omega arith, omega arith)
