-- ===== src/RawApfs/Walk/Included.antt =====
-- The items that the walk of src/raw_apfs.rs finds.
use tzip.Prelude.{
  unwrap_or, ℕ, zero, suc, ◌≡◌, refl, sym, ap, ◌∙◌, arith, false, Bool, ◌||◌, Bool-cases, inl, inr,
  Option, none, some, List, [], ◌∷◌, ◌++◌, All, All-append, append_assoc, append-nil,
}
use tzip.Prelude.Assoc.{Map}
use tzip.Bytes.{Bytes}
use tzip.Walk.Item.{WorkItem}
use tzip.Walk.Name.{archive_prefix_for_root}
use tzip.Walk.Glob.{is_excluded}
use tzip.Channel.{Channel, Outcome, then_loop, Ends, then_loop-Ends}
use tzip.RawApfs.Volume.{Volume, EntryKind, InodeVal}
use tzip.RawApfs.Oid.{OidCache, child_rel}
use tzip.RawApfs.Bulk.Meta.{rel_str}
use tzip.RawApfs.Walk.{
  Child, Walker, child_prefix, join_path, found_item, sent_item, emit, emit_file, then_dirs,
  walk_entries, walk_dir, emit_root, walk_opened, walk_root, files_of, dirs_of,
}

module _ (ch : Channel WorkItem) (exclude : List Bytes) (c₀ : ch.State) where
  abbrev pub IsIncluded : WorkItem → Type 0
  IsIncluded item = is_excluded item.name_in_archive exclude ≡ false

  -- What was sent since `c₀`.
  abbrev pub IsClean : Walker ch → Type 0
  IsClean w = (out : List WorkItem) × (ch.received w.2 ≡ ch.received c₀ ++ out) × All IsIncluded out

  sent_item-IsClean :
      (c : OidCache) (m : Map InodeVal) (s : ch.State) (item : WorkItem) (o : Option ch.State)
      → ch.send item s ≡ o
      → IsIncluded item
      → IsClean (c, m, s)
      → Ends IsClean (sent_item ch c m s o)
  sent_item-IsClean c m s item none e i h = h
  sent_item-IsClean c m s item (some s') e i (out, got, clean) = (
    out ++ (item ∷ []),
    ch.send-received item s s' e
        ∙ (ap (λ (l : List WorkItem). l ++ (item ∷ [])) got
            ∙ append_assoc (ch.received c₀) out (item ∷ [])),
    All-append IsIncluded out (item ∷ []) clean (i, tt),
  )

  emit-IsClean :
      (item : WorkItem) (w : Walker ch)
      → IsIncluded item
      → IsClean w
      → Ends IsClean (emit ch item w)
  unfolding emit
  emit-IsClean item (c, m, s) i h = sent_item-IsClean c m s item (ch.send item s) refl i h

  emit_file-IsClean :
      (dir prefix : Bytes) (f : Child) (w : Walker ch)
      → IsClean w
      → Ends IsClean (emit_file ch exclude dir prefix f w)
  unfolding emit_file
  emit_file-IsClean dir prefix (name, oid) w h =
      let archive_name : Bytes = child_prefix prefix name in
      elim (Bool-cases (is_excluded archive_name exclude || is_excluded name exclude)) [
        | inl out ↦ rw out h
        | inr kept ↦
            rw kept (emit-IsClean (found_item (join_path dir name) archive_name) w (ground arith) h)
      ]

  then_dirs-IsClean :
      (o : Outcome (Walker ch)) (f : Walker ch → Outcome (Walker ch))
      → Ends IsClean o
      → ((w : Walker ch) → IsClean w → Ends IsClean (f w))
      → Ends IsClean (then_dirs ch exclude o f)
  then_dirs-IsClean (Outcome.failed w) f h k = h
  then_dirs-IsClean Outcome.panicked f h k = h
  then_dirs-IsClean (Outcome.closed w) f h k = h
  then_dirs-IsClean (Outcome.next w) f h k = k w h

  module _ (vol : Volume) where
    walk_entries-IsClean :
        (walk : Bytes → Bytes → Bytes → Child → Walker ch → Outcome (Walker ch))
        → ((abs rel pre : Bytes) (child : Child) (w : Walker ch)
            → IsClean w
            → Ends IsClean (walk abs rel pre child w))
        → (abs rel pre : Bytes) (entries : Option (List (Bytes × ℕ × EntryKind))) (w : Walker ch)
        → IsClean w
        → Ends IsClean (walk_entries ch exclude vol walk abs rel pre entries w)
    walk_entries-IsClean walk each abs rel pre none w h = h
    walk_entries-IsClean walk each abs rel pre (some entries) (c, m, s) h =
        then_dirs-IsClean _ (then_loop (walk abs rel pre) (dirs_of entries))
          (then_loop-Ends IsClean (emit_file ch exclude abs pre) (emit_file-IsClean abs pre)
            (files_of entries) _ h)
          (λ w k.
            then_loop-Ends IsClean (walk abs rel pre) (each abs rel pre) (dirs_of entries) w k)

    walk_dir-IsClean :
        (depth : ℕ) (abs rel : Bytes) (oid : ℕ) (pre : Bytes) (w : Walker ch)
        → IsClean w
        → Ends IsClean (walk_dir ch exclude vol depth abs rel oid pre w)
    unfolding walk_dir
    walk_dir-IsClean zero abs rel oid pre w h = tt
    walk_dir-IsClean (suc depth) abs rel oid pre w h =
        walk_entries-IsClean _
          (λ a r p child v k.
            walk_dir-IsClean depth (join_path a child.0) (child_rel r child.0) child.1
              (child_prefix p child.0) v k)
          abs rel pre (vol.list_directory_names_by_oid oid) w h

    module _ (strip_mount file_name canonicalize : Bytes → Option Bytes)
        (basename_only : Bool) where
      emit_root-IsClean :
          (abs name : Bytes) (a : OidCache × Option ℕ) (m : Map InodeVal) (s : ch.State)
          → IsClean (a.0, m, s)
          → Ends IsClean (
              emit_root ch exclude vol strip_mount file_name canonicalize basename_only abs name a m
                s)
      emit_root-IsClean abs name (c, none) m s h = h
      emit_root-IsClean abs name (c, some oid) m s h =
          elim (Bool-cases (is_excluded name exclude)) [
            | inl out ↦ rw out h
            | inr kept ↦ rw kept (
                then_dirs-IsClean _ _ (emit-IsClean (found_item abs name) (c, m, s) kept h)
                  (λ w k. k))
          ]

      walk_opened-IsClean :
          (depth : ℕ) (abs rel name : Bytes) (opened : Option ℕ) (w : Walker ch)
          → IsClean w
          → Ends IsClean (
              walk_opened ch exclude vol strip_mount file_name canonicalize basename_only depth abs
                rel name opened w)
      walk_opened-IsClean depth abs rel name (some oid) (c, m, s) h =
          walk_dir-IsClean depth abs rel oid name ((rel, oid) ∷ c, m, s) h
      walk_opened-IsClean depth abs rel name none (c, m, s) h = emit_root-IsClean abs name _ m s h

      -- However the walk of a root ends, no item that was sent on the way has a name in the archive that is
      -- excluded, and what was sent before is still there.
      pub walk_root-IsClean :
          (depth : ℕ) (cli_root : Bytes) (c : OidCache) (m : Map InodeVal)
          → Ends IsClean (
              walk_root ch exclude vol strip_mount file_name canonicalize basename_only depth
                cli_root
                (c, m, c₀))
      unfolding walk_root
      walk_root-IsClean depth cli_root c m =
          let abs = unwrap_or (canonicalize cli_root) cli_root in
          let rel = rel_str strip_mount abs in
          walk_opened-IsClean depth abs rel
            (archive_prefix_for_root file_name cli_root basename_only) (vol.open_directory rel)
            (c, m, c₀) ([], sym (append-nil (ch.received c₀)), tt)
