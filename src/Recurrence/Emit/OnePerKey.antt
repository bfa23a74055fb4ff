-- ===== src/Recurrence/Emit/OnePerKey.antt =====
-- The findings that the tracker writes keep one key apart from another.
use learning_loop_template.Base.{
  ℕ, suc, ◌≡◌, refl, Bool, true, false, none, List, [], ◌∷◌, inl, inr, ◌⊎◌,
}
use learning_loop_template.Registry.Entry.{Entry}
use learning_loop_template.Registry.Projection.{Store, current, read_registry}
use learning_loop_template.Registry.Lifecycle.Step.{Error, Result, ok, thrown}
use learning_loop_template.Registry.Files.{Disk}
use learning_loop_template.Registry.Host.{Host, IsSound}
use learning_loop_template.Registry.Citations.{Stamp}
use learning_loop_template.Registry.Writes.Absent.{Written}
use learning_loop_template.Registry.Writes.Absent.OnePerKey.{
  OnePerKey, write_entry_if_absent-OnePerKey,
}
use learning_loop_template.Recurrence.{LogLine, Tracker}
use learning_loop_template.Recurrence.Report.{
  Recurrent, find_recurrent_groups, collapse_fresh_by_key,
}
use learning_loop_template.Recurrence.Emit.{
  Printer, build_finding, counted_write, write_finding, existing_keys, emit_all, emitted,
  check_and_emit,
}

module _ (x : Tracker) (pr : Printer) (h : Host) (sound : IsSound h) (disks : ℕ → Disk)
    (stamps : ℕ → Stamp) where
  -- Each generated id is new when its finding is written.
  unfoldable pub FreshIds : ℕ → List Entry → List Recurrent → Store → Type 0
  FreshIds i es [] s = Unit
  FreshIds i es (g ∷ gs) s =
      (current s (stamps i).fresh_id ≡ none)
      × FreshIds (suc i) es gs (write_finding x pr h disks stamps i es g s).1

  Written-cases :
      (r : Result Written) → ((w : Written) × (r ≡ ok w)) ⊎ ((e : Error) × (r ≡ thrown e))
  Written-cases (ok w) = inl (w, refl)
  Written-cases (thrown e) = inr (e, refl)

  emit_all-OnePerKey :
      (i n : ℕ) (es : List Entry) (gs : List Recurrent) (s : Store)
      → FreshIds i es gs s
      → OnePerKey s
      → OnePerKey (emit_all x pr h disks stamps i n es gs s).1
  unfolding emit_all FreshIds build_finding
  emit_all-OnePerKey i n es [] s fresh one = one
  emit_all-OnePerKey i n es (g ∷ gs) s (now, later) one =
      let next : OnePerKey (write_finding x pr h disks stamps i es g s).1 =
        write_entry_if_absent-OnePerKey h sound (disks i) (build_finding x pr (stamps i) es g) s now
          one in
      elim (Written-cases (write_finding x pr h disks stamps i es g s).0) [
        | inl (w, fine) ↦
            rw (fine, emit_all)
              (emit_all-OnePerKey (suc i) (counted_write n w) es gs
                (write_finding x pr h disks stamps i es g s).1 later next)
        | inr (e, broken) ↦ rw (broken, emit_all) next
      ]

  emitted-OnePerKey :
      (log : List LogLine) (rs : List Recurrent) (r : Result ℕ × Store)
      → OnePerKey r.1
      → OnePerKey (emitted x pr h disks stamps log rs r).1
  unfolding emitted
  emitted-OnePerKey log rs (thrown e, s) one = one
  emitted-OnePerKey log rs (ok n, s) one = one

  -- If no two ids hold live recurring findings of one key, the schema keeps the id of an entry, and each
  -- generated id is new when its finding is written, then none do after the tracker has filed its
  -- findings, also where a write throws in between.
  pub check_and_emit-OnePerKey :
      (dry_run : Bool) (now threshold : ℕ) (log : List LogLine) (s : Store)
      → FreshIds 0
          (read_registry s)
          (collapse_fresh_by_key x
            (existing_keys (read_registry s))
            (find_recurrent_groups x now threshold log))
          s
      → OnePerKey s
      → OnePerKey (check_and_emit x pr h disks stamps dry_run now threshold log s).1
  unfolding check_and_emit
  check_and_emit-OnePerKey true now threshold log s fresh one =
      emitted-OnePerKey log _ (ok 0, s) one
  check_and_emit-OnePerKey false now threshold log s fresh one =
      emitted-OnePerKey log _ _ (emit_all-OnePerKey 0 0 (read_registry s) _ s fresh one)
