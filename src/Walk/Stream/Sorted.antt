-- ===== src/Walk/Stream/Sorted.antt =====
-- `walk` of src/walker.rs with `--sort`, against the order in which jwalk finds the files.
use mathlib.Core.Path.{subst}
use mathlib.Core.List.{Permᴰ}
use mathlib.Core.List.Permᴰ
use tzip.Prelude.{
  ℕ, ◌≡◌, sym, ap, ◌∙◌, Bool, true, false, max, Option, none, some, some-inj, >>=-eq-some, ◌>>=◌,
  List, [], ◌++◌,
}
use tzip.Prelude.SortBy.{
  bytes_le, bytes_le_total, bytes_le_trans, sort_by, Distinct, IsOrder, Permᴰ-Distinct,
  sort_by-Permᴰ, sort_by_perm,
}
use tzip.Bytes.{Bytes}
use tzip.Walk.Item.{WorkItem}
use tzip.Channel.{Channel, Outcome}
use tzip.Walk.Stream.{DirEntry, Disk, prefix_of, sorted_items, walk}
use tzip.Walk.Stream.Collect.{
  collect, collect-Permᴰ, collect_each, Answers, entry_found, path_found, canonical_found,
  root_found, walk_stream-Answers,
}

-- By the name in the archive.
abbrev pub by_name : WorkItem → WorkItem → Bool
by_name a b = bytes_le a.name_in_archive b.name_in_archive

by_name-IsOrder : IsOrder by_name
by_name-IsOrder = record {
  le_total = λ x y. bytes_le_total x.name_in_archive y.name_in_archive;
  le_trans = λ x y z. bytes_le_trans x.name_in_archive y.name_in_archive z.name_in_archive;
}

module _ (d : Disk) (exclude : List Bytes) (basename_only : Bool)
    (jwalk jwalk' : ℕ → Bytes → List (Option DirEntry)) (n n' : ℕ)
    (same : (root : Bytes) → Permᴰ (jwalk (max n 1) root) (jwalk' (max n' 1) root)) where
  abbrev found : Bytes → Option (List WorkItem)
  found r = root_found d exclude basename_only jwalk n r

  abbrev found' : Bytes → Option (List WorkItem)
  found' r = root_found d exclude basename_only jwalk' n' r

  path-each :
      (cli_root root : Bytes) (is_file : Bool) (l : List WorkItem)
      → path_found d exclude basename_only jwalk n cli_root root is_file ≡ some l
      → (m : List WorkItem) × (path_found d exclude basename_only jwalk' n' cli_root root is_file
          ≡ some m)
        × Permᴰ l m
  path-each cli_root root true l h = (l, h, Permᴰ.refl l)
  path-each cli_root root false l h =
      collect-Permᴰ (entry_found d exclude basename_only root (prefix_of d basename_only cli_root))
        l (same root) h

  canonical-each :
      (cli_root : Bytes) (o : Option Bytes) (l : List WorkItem)
      → canonical_found d exclude basename_only jwalk n cli_root o ≡ some l
      → (m : List WorkItem) × (canonical_found d exclude basename_only jwalk' n' cli_root o
          ≡ some m)
        × Permᴰ l m
  canonical-each cli_root none l h = absurd cc
  canonical-each cli_root (some root) l h = path-each cli_root root (d.is_file root) l h

  module _ (ch : Channel WorkItem)
      (takes : (x : WorkItem) (s : ch.State) → (s' : ch.State) × (ch.send x s ≡ some s'))
      (path_le : Bytes → Bytes → Bool) (empty : ch.State) (fresh : ch.received empty ≡ []) where
    walk_of :
        (jw : ℕ → Bytes → List (Option DirEntry)) (k : ℕ) (roots : List Bytes)
        (o : Option (List WorkItem)) (out : Outcome ch.State)
        → Answers ch empty o out
        → sorted_items d exclude basename_only ch jw k path_le true out
          ≡ (o >>= λ l. some (sort_by by_name l))
    walk_of jw k roots none out (t, e) =
        ap (sorted_items d exclude basename_only ch jw k path_le true) e
    walk_of jw k roots (some l) out (t, e, r) =
        ap (sorted_items d exclude basename_only ch jw k path_le true) e
        ∙ ap (λ x. some (sort_by by_name x)) (r ∙ ap (λ x. x ++ l) fresh)

    sorted_same :
        (roots : List Bytes) (items : List WorkItem)
        → Distinct by_name items
        → (collect found roots >>= λ l. some (sort_by by_name l)) ≡ some items
        → (collect found' roots >>= λ l. some (sort_by by_name l)) ≡ some items
    sorted_same roots items distinct h =
        let (l, all, is) = >>=-eq-some (collect found roots) (λ x. some (sort_by by_name x)) h in
        let (m, all', p) =
          collect_each found found' (λ r. canonical-each r (d.canonicalize r)) roots l all in
        let apart : Distinct by_name l =
          Permᴰ-Distinct by_name by_name-IsOrder (sort_by_perm by_name l)
            (subst (Distinct by_name) (sym (some-inj is)) distinct) in
        ap (λ o. o >>= λ x. some (sort_by by_name x)) all'
        ∙ ap some (sym (sort_by-Permᴰ by_name by_name-IsOrder p apart) ∙ some-inj is)

    -- With `--sort`, where no two files have one name in the archive: jwalk may find the files in any
    -- order and with any number of threads, and the walk gives the same list.
    pub walk-sorted :
        (roots : List Bytes) (items : List WorkItem)
        → Distinct by_name items
        → walk d exclude basename_only ch jwalk n path_le empty roots true ≡ some items
        → walk d exclude basename_only ch jwalk' n' path_le empty roots true ≡ some items
    unfolding walk
    walk-sorted roots items distinct h =
        let answers =
          walk_of jwalk n roots (collect found roots) _
            (walk_stream-Answers d exclude basename_only ch takes jwalk n roots empty) in
        let answers' =
          walk_of jwalk' n' roots (collect found' roots) _
            (walk_stream-Answers d exclude basename_only ch takes jwalk' n' roots empty) in
        answers' ∙ sorted_same roots items distinct (sym answers ∙ h)
