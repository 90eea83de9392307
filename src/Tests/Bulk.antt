-- ===== src/Tests/Bulk.antt =====
-- A disk of four blocks with one file of six bytes in two two_extents, read in bulk.
use tzip.Prelude.{
  ℕ, ◌+◌, ◌≤◌, ◌≡◌, refl, sym, ap, ◌∙◌, arith, true, false, Bool-cases, inl, inr, Option, none,
  some, some-inj, List, [], ◌∷◌, All, Any, length, ◌==◌, if◌then◌else◌,
}
use mathlib.Core.Path.{subst}
use tzip.Prelude.Assoc.{lookup}
use tzip.Prelude.Int.{pos}
use tzip.Prelude.Sort.{sort_by_key}
use tzip.Bytes.{Bytes, slice, bytes_eq, bytes_eq_sound}
use tzip.Walk.Item.{WorkItem}
use tzip.Walk.Name.{slash, trim_end}
use tzip.Channel.{RawItem, Channel, Ends, then_loop}
use tzip.RawApfs.Volume.{Volume, EntryKind, InodeVal, Extents}
use tzip.RawApfs.Oid.{child_rel, split_parent_name, rsplit_once, resolve_oid}
use tzip.RawApfs.Oid.Sound.{IsTree, IsSoundCache, resolve_oid_sound, resolve_oid-finds}
use tzip.RawApfs.Bulk.Task.{Slot, ExtentTask}
use tzip.RawApfs.Bulk.Runs.{end_of, grow}
use tzip.RawApfs.Bulk.Runs.Cover.{IsRun, grow-IsRun}
use tzip.RawApfs.Bulk.Slots.{build_slots, slot_of, tasks_of, extents_of, is_special}
use tzip.RawApfs.Bulk.Slots.Fit.{build_slots-IsReady}
use tzip.RawApfs.Bulk.Reads.{phase2}
use tzip.RawApfs.Bulk.Reads.Direct.{read_directly, phase2-direct}
use tzip.RawApfs.Bulk.Reads.Fitting.{IsReady}
use tzip.RawApfs.Walk.{walk_root}
use tzip.RawApfs.Walk.Included.{IsClean, walk_root-IsClean}
use tzip.Tests.Toy.{open_channel}

abbrev disk : Bytes
disk = 0 ∷ 0 ∷ 0 ∷ 0 ∷ 5 ∷ 6 ∷ 0 ∷ 0 ∷ 1 ∷ 2 ∷ 3 ∷ 4 ∷ 0 ∷ 0 ∷ 0 ∷ 0 ∷ []

abbrev read_disk : ℕ → ℕ → Option Bytes
read_disk off n = some (slice off (off + n) disk)

abbrev root : Bytes
root = slash ∷ []

-- "/a" and "a"
abbrev file_path : Bytes
file_path = slash ∷ 97 ∷ []

abbrev file_name : Bytes
file_name = 97 ∷ []

abbrev inode : InodeVal
inode = record { private_id = 7; modify_time = pos 0; bsd_flags = 0; is_symlink = false; size = 6 }

abbrev two_extents : Extents
two_extents =
    (0, record { phys_block_num = 2; length = 4 })
    ∷ (4, record { phys_block_num = 1; length = 4 })
    ∷ []

abbrev listed : List (Bytes × ℕ × EntryKind)
listed = (file_name, 3, EntryKind.file) ∷ []

abbrev vol : Volume
vol = record {
  block_size = 4;
  open_directory = λ p. if bytes_eq p root then some 2 else none;
  list_directory_names_by_oid = λ o. if o == 2 then some listed else none;
  batch_inodes_in_range = λ low high. none;
  lookup_inode_by_oid = λ o. some inode;
  batch_extents_in_range = λ low high. none;
  lookup_extents_by_private_id = λ p. some two_extents;
  read_file_by_oid = λ o. none;
  read_file_by_oid_with_inode = λ o i. none;
  read_raw_at = read_disk;
}

abbrev item : WorkItem
item = record {
  path = file_path;
  name_in_archive = file_name;
  size = 0;
  mtime = (33, 0);
  dirfd = none;
  basename = none;
}

abbrev items : List (ℕ × WorkItem × ℕ × InodeVal)
items = (0, item, 3, inode) ∷ []

abbrev raw : Channel RawItem
raw = open_channel RawItem

abbrev slots : List Slot
slots = (build_slots vol 4 [] 0 items []).0

abbrev tasks : List ExtentTask
tasks = (build_slots vol 4 [] 0 items []).1

tasks_within : All (λ t. end_of t ≤ length disk) tasks
unfolding build_slots slot_of extents_of tasks_of is_special lookup
tasks_within = (omega arith, (omega arith, tt))

phase2-direct_example :
    phase2 raw read_disk 4 64 tasks (slots, [])
    ≡ then_loop (read_directly raw disk) (sort_by_key (λ t. t.disk_offset) tasks) (slots, [])
phase2-direct_example =
    phase2-direct raw disk read_disk 4 64 4 (omega arith) refl (λ off n h. refl) tasks (slots, [])
      tasks_within

build_slots-IsReady_example : IsReady tasks slots
build_slots-IsReady_example = build_slots-IsReady vol 4 [] items []

abbrev near : List ExtentTask
near =
    record { disk_offset = 8; length = 4; slot_idx = 0; file_offset = 0 }
    ∷ record { disk_offset = 40; length = 30; slot_idx = 1; file_offset = 0 }
    ∷ []

grow-IsRun_example : IsRun 32 4 6 near (grow 32 4 6 near)
grow-IsRun_example = grow-IsRun 32 4 6 near (omega arith, (omega arith, tt))

abbrev oid_of : Bytes → Option ℕ
oid_of p = if bytes_eq p root then some 2 else if bytes_eq p file_path then some 3 else none

abbrev list_of : ℕ → Option (List (Bytes × ℕ × EntryKind))
list_of o = if o == 2 then some listed else none

root_lists :
    (p : Bytes) (es : List (Bytes × ℕ × EntryKind))
    → bytes_eq p root ≡ true
    → some listed ≡ some es
    → All (λ e. oid_of (child_rel p e.0) ≡ some e.1) es
unfolding child_rel trim_end
root_lists p es e l =
    subst (λ (x : List (Bytes × ℕ × EntryKind)). All (λ e. oid_of (child_rel p e.0) ≡ some e.1) x)
      (some-inj l)
      (
        subst (λ q. oid_of (child_rel q file_name) ≡ some 3) (sym (bytes_eq_sound p root e)) refl,
        tt,
      )

tree : IsTree vol oid_of
tree = record {
  opens = λ p o h. elim (Bool-cases (bytes_eq p root)) [
    | inl e ↦ rw e (rw e at h)
    | inr e ↦ absurd (let h' : none ≡ some o = rw e at h in cc)
  ];
  lists = λ p o es h l. elim (Bool-cases (bytes_eq p root)) [
    | inl e ↦
        let two : some 2 ≡ some o = rw e at h in root_lists p es e (ap list_of (some-inj two) ∙ l)
    | inr e ↦ elim (Bool-cases (bytes_eq p file_path)) [
      | inl f ↦
          let three : some 3 ≡ some o = rw (e, f) at h in
          absurd (let l' : none ≡ some es = ap list_of (some-inj three) ∙ l in cc)
      | inr f ↦ absurd (let h' : none ≡ some o = rw (e, f) at h in cc)
    ]
  ];
}

resolve_oid_sound_example :
    IsSoundCache oid_of (resolve_oid vol file_path []).0
    × ((oid : ℕ) → (resolve_oid vol file_path []).1 ≡ some oid → oid_of file_path ≡ some oid)
resolve_oid_sound_example = resolve_oid_sound oid_of vol tree file_path [] tt

parent_is_root : (split_parent_name file_path).0 ≡ root
unfolding split_parent_name rsplit_once
parent_is_root = refl

a_under_root : Any (λ e. child_rel (split_parent_name file_path).0 e.0 ≡ file_path) listed
unfolding split_parent_name rsplit_once child_rel trim_end
a_under_root = inl refl

root_opens : vol.open_directory (split_parent_name file_path).0 ≡ some 2
root_opens = rw parent_is_root refl

resolve_oid-finds_example :
    (oid : ℕ) × ((resolve_oid vol file_path []).1 ≡ some oid) × (oid_of file_path ≡ some oid)
resolve_oid-finds_example =
    resolve_oid-finds oid_of vol tree file_path [] 2 listed tt root_opens refl a_under_root

abbrev found : Channel WorkItem
found = open_channel WorkItem

abbrev excluded : List Bytes
excluded = (42 ∷ 98 ∷ []) ∷ []

walk_root-IsClean_example :
    Ends (IsClean found excluded []) (
      walk_root found excluded vol
        (λ p. none)
        (λ p. some p)
        (λ p. some p)
        false
        2
        root
        ([], [], []))
walk_root-IsClean_example =
    walk_root-IsClean found excluded [] vol (λ p. none) (λ p. some p) (λ p. some p) false 2 root []
      []
