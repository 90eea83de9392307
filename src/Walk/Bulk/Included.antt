-- ===== src/Walk/Bulk/Included.antt =====
-- The items that src/bulk_walker.rs finds.
use tzip.Prelude.{ℕ, ◌≡◌, false, Option, some, List, [], ◌++◌, All, Any, unwrap_or}
use tzip.Bytes.{Bytes}
use tzip.Walk.Item.{WorkItem}
use tzip.Walk.Glob.{is_excluded}
use tzip.Channel.{Channel}
use tzip.RawApfs.Walk.{child_prefix, join_path}
use tzip.Walk.Bulk.{Found, vreg, vdir, DirState, sub_prefix}

module _ (ch : Channel WorkItem) (exclude : List Bytes) (parse : ℕ → Bytes → Option (ℕ × Found))
    (file_name : Bytes → Option Bytes) (open_dir : Bytes → Option ℕ)
    (batches : ℕ → List (Option (ℕ × Bytes))) where
  -- The system's answers for a directory hold a record of this name, type and size.
  pub record IsListed (dirfd : ℕ) (name : Bytes) (objtype size : ℕ) : Type 0 where
    pub records : ℕ
    pub buf : Bytes
    pub offset : ℕ
    pub end : ℕ
    pub answered : Any (λ b. b ≡ some (records, buf)) (batches dirfd)
    pub parsed : parse offset buf ≡ some (end, Found.entry name objtype size)

  abbrev pub prefix_below : Bytes → Bytes → Bytes
  prefix_below prefix sub =
      sub_prefix ch exclude parse file_name open_dir batches prefix (unwrap_or (file_name sub) [])

  module _ (root root_prefix : Bytes) where
    -- The directories below `root`, with the prefixes of their names in the archive.
    pub data Visits : Bytes → Bytes → Type 0 where
      here : Visits root root_prefix
      below :
          (dir prefix : Bytes) (dirfd : ℕ) (name : Bytes) (size : ℕ)
          → Visits dir prefix
          → open_dir dir ≡ some dirfd
          → IsListed dirfd name vdir size
          → Visits (join_path dir name) (prefix_below prefix (join_path dir name))

    -- A file that is listed in a directory below `root`, by that directory's descriptor and its name,
    -- under neither of whose names it is excluded.
    pub record IsKept (item : WorkItem) : Type 0 where
      pub dir : Bytes
      pub prefix : Bytes
      pub dirfd : ℕ
      pub name : Bytes
      pub visits : Visits dir prefix
      pub opens : open_dir dir ≡ some dirfd
      pub listed : IsListed dirfd name vreg item.size
      pub by_path : item.path ≡ join_path dir name
      pub by_archive_name : item.name_in_archive ≡ child_prefix prefix name
      pub by_descriptor : item.dirfd ≡ some dirfd
      pub by_name : item.basename ≡ some name
      pub kept : is_excluded item.name_in_archive exclude ≡ false
      pub kept_name : is_excluded name exclude ≡ false

    module _ (c₀ : ch.State) where
      abbrev pub IsGood : ch.State → Type 0
      IsGood s = (out : List WorkItem) × (ch.received s ≡ ch.received c₀ ++ out) × All IsKept out

      module _ (dir prefix : Bytes) (dirfd : ℕ) (visits : Visits dir prefix)
          (opens : open_dir dir ≡ some dirfd) where
        abbrev IsGoodDir : DirState ch exclude → Type 0
        IsGoodDir st = IsGood st.1 × All (λ sub. Visits sub (prefix_below prefix sub)) st.0

        abbrev WasFound : Found → Type 0
        WasFound Found.skipped = Unit
        WasFound (Found.entry name objtype size) = IsListed dirfd name objtype size
