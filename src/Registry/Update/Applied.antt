-- ===== src/Registry/Update/Applied.antt =====
-- An update that takes effect.
use learning_loop_template.Base.{
  ℕ, ◌≡◌, refl, ap, ◌∙◌, String, Bool, true, false, Option, none, some, List, [], ◌∷◌, Text, arith,
  any_of, select,
}
use learning_loop_template.Registry.Entry.{
  Entry, Kind, is_change_log, is_citation, is_rule, with_defaults, read_line, coerce_kind,
  default_system,
}
use learning_loop_template.Registry.Projection.{Store, current}
use learning_loop_template.Registry.Projection.Append.{
  with_line, current-with_line_self, current-same_files,
}
use learning_loop_template.Registry.Projection.Found.{IsRead, current-IsRead, current-id}
use learning_loop_template.Registry.Lifecycle.Step.{ok, true_append}
use learning_loop_template.Registry.Patch.{
  Change, id_to, entry_kind_to, is_key, without, spread, apply_change, key_of,
}
use learning_loop_template.Registry.Fields.{entries_equal}
use learning_loop_template.Registry.Files.{Disk, append_line}
use learning_loop_template.Registry.Host.{Host}
use learning_loop_template.Registry.Citations.{Stamp}
use learning_loop_template.Registry.Refine.{kind_kept, cleaned, refine, next_version}
use learning_loop_template.Registry.Update.{
  updated, with_advice, option_json, mismatched, is_empty, cite_supersession, update_appended,
  append_update, update_refined, update_clean, update_found, update_entry,
}

abbrev pub names : String → List Change → Bool
names k = any_of (is_key k)

pub any_of-without : (k : String) (cs : List Change) → any_of (is_key k) (without k cs) ≡ false
unfolding without select any_of
any_of-without k [] = refl
any_of-without k (c ∷ cs) = let rest = any_of-without k cs in ground arith

kind_kept-unnamed :
    (k : Option Kind) (cs : List Change)
    → any_of (is_key "entry_kind") cs ≡ false
    → kind_kept k cs ≡ true
unfolding kind_kept any_of key_of
kind_kept-unnamed k [] h = refl
kind_kept-unnamed k (entry_kind_to j ∷ cs) h = cc
kind_kept-unnamed k (c ∷ cs) h = kind_kept-unnamed k cs (ground arith)

apply_change-entry_kind :
    (c : Change) (e : Entry)
    → is_key "entry_kind" c ≡ false
    → (apply_change c e).entry_kind ≡ e.entry_kind
unfolding apply_change key_of
apply_change-entry_kind (entry_kind_to k) e h = cc
apply_change-entry_kind c e h = refl

apply_change-id : (c : Change) (e : Entry) → is_key "id" c ≡ false → (apply_change c e).id ≡ e.id
unfolding apply_change key_of
apply_change-id (id_to k) e h = cc
apply_change-id c e h = refl

pub spread-entry_kind :
    (cs : List Change) (e : Entry)
    → any_of (is_key "entry_kind") cs ≡ false
    → (spread e cs).entry_kind ≡ e.entry_kind
unfolding spread any_of
spread-entry_kind [] e h = refl
spread-entry_kind (c ∷ cs) e h =
    spread-entry_kind cs (apply_change c e) (ground arith)
    ∙ apply_change-entry_kind c e (ground arith)

pub spread-id :
    (cs : List Change) (e : Entry) → any_of (is_key "id") cs ≡ false → (spread e cs).id ≡ e.id
unfolding spread any_of
spread-id [] e h = refl
spread-id (c ∷ cs) e h =
    spread-id cs (apply_change c e) (ground arith) ∙ apply_change-id c e (ground arith)

pub any_of-select :
    (p q : Change → Bool) (cs : List Change) → any_of p cs ≡ false → any_of p (select q cs) ≡ false
unfolding any_of select
any_of-select p q [] h = refl
any_of-select p q (c ∷ cs) h = let rest = any_of-select p q cs (ground arith) in ground arith

pub cleaned-names :
    (k : String) (cs : List Change) → names k cs ≡ false → names k (cleaned cs) ≡ false
unfolding without
cleaned-names k cs h =
    any_of-select (is_key k) _ _ (any_of-select (is_key k) _ _ (any_of-select (is_key k) _ cs h))

default_system_twice : (o : Option String) → default_system (default_system o) ≡ default_system o
default_system_twice none = refl
default_system_twice (some t) = refl

pub with_defaults-IsRead :
    (x e : Entry) → x.entry_kind ≡ e.entry_kind → IsRead e → IsRead (with_defaults x)
unfolding read_line with_defaults
with_defaults-IsRead x e same read =
    let kept : coerce_kind e.entry_kind ≡ e.entry_kind = ap (λ y. y.entry_kind) read in
    let own : coerce_kind x.entry_kind ≡ x.entry_kind = rw same kept in
    rw (own, default_system_twice x.affected_system) refl

-- The line that a patch asks for, before its version.
abbrev pub asked : Entry → List Change → Entry
asked e patch = with_defaults (spread e (cleaned patch))

module _ (h : Host) (fails : Disk) (st : Stamp) (id : String) (patch : List Change)
    (expected : Option ℕ) (option : Option Text) (s : Store) (e : Entry)
    (found : current s id ≡ some e) where
  asked-entry_kind : (asked e patch).entry_kind ≡ e.entry_kind
  unfolding with_defaults
  asked-entry_kind = spread-entry_kind (cleaned patch) e (any_of-without "entry_kind" _)

  appended :
      is_change_log e.entry_kind ≡ false
      → is_citation e.entry_kind ≡ false
      → fails 0 ≡ false
      → (s' : Store)
      → append_line (fails 0) (next_version e (asked e patch)) s'
        ≡ ok (with_line s' (next_version e (asked e patch)))
  unfolding append_line true_append
  appended log cite works s' = rw (works, asked-entry_kind) (ground arith)

  asked-IsRead : IsRead (asked e patch)
  asked-IsRead =
      with_defaults-IsRead _ e (spread-entry_kind (cleaned patch) e (any_of-without "entry_kind" _))
        (current-IsRead s id e found)

  asked-id : names "id" patch ≡ false → (asked e patch).id ≡ id
  unfolding with_defaults
  asked-id unnamed =
      spread-id (cleaned patch) e (cleaned-names "id" patch unnamed) ∙ current-id s id e found

  cite_supersession_other :
      (o : Option _) (before s' : Store)
      → is_rule e.entry_kind ≡ false
      → cite_supersession h fails st id o e before s' ≡ (ok updated, s')
  unfolding cite_supersession
  cite_supersession_other none before s' other = refl
  cite_supersession_other (some v) before s' other = rw other refl

  abbrev advised : Store
  advised = with_advice h id (cleaned patch) e (next_version e (asked e patch)) s

  abbrev after_update : Store
  after_update = with_line advised (next_version e (asked e patch))

  next-IsRead : IsRead (next_version e (asked e patch))
  unfolding read_line
  next-IsRead = ap {A = Entry} {B = Entry} (λ x. next_version e x) asked-IsRead

  current-after_update :
      names "id" patch ≡ false → current after_update id ≡ some (next_version e (asked e patch))
  current-after_update unnamed =
      current-with_line_self advised (next_version e (asked e patch)) next-IsRead id e
        (current-same_files s advised id refl refl refl ∙ found) (asked-id unnamed) (omega arith)

  module _ (other : is_rule e.entry_kind ≡ false) (log : is_change_log e.entry_kind ≡ false)
      (cite : is_citation e.entry_kind ≡ false) (given : is_empty patch ≡ false)
      (fits : mismatched expected e ≡ false)
      (changed : entries_equal h.stringify (asked e patch) e ≡ false)
      (works : fails 0 ≡ false) where
    update_found_lem :
        update_found h fails st id patch expected option e s ≡ (ok updated, after_update)
    unfolding update_found update_clean update_refined refine append_update update_appended
    update_found_lem =
        rw
          (
            log,
            given,
            kind_kept-unnamed e.entry_kind _ (any_of-without "entry_kind" patch),
            fits,
            other,
            changed,
            appended log cite works _,
            cite_supersession_other (option_json option) s _ other,
          )
          refl

    -- A patch that changes an entry other than a rule takes effect: where the current line of the id is no
    -- rule, change log or citation, the patch has a field and leaves the id alone, a given
    -- `_expected_version` is that of the line, and the append works, the reply is `true` and the
    -- current line is the patched one with the next version.
    pub update_entry-current :
        names "id" patch ≡ false
        → ((update_entry h fails st id patch expected option s).0 ≡ ok updated)
          × (current (update_entry h fails st id patch expected option s).1 id
              ≡ some (next_version e (asked e patch)))
    unfolding update_entry
    update_entry-current unnamed =
        let step : update_entry h fails st id patch expected option s ≡ (ok updated, after_update) =
          rw (found, update_entry) update_found_lem in
        rw step (refl, current-after_update unnamed)
