-- ===== src/Linux/Fiemap.antt =====
-- src/fiemap.rs. The kernel's answer to the request is a parameter: `none` for an error, or the extents
-- that it mapped, no more than were asked for.
use Prim.Native.Nat.{bit_or}
use tzip.Prelude.{
  ℕ, zero, suc, ◌+◌, ◌*◌, ◌/◌, ◌%◌, ◌^◌, ◌==◌, Bool, false, ◌||◌, Option, none, some, List, [], ◌∷◌,
  ◌++◌, if◌then◌else◌,
}

-- The fields that are read.
pub record FiemapExtent : Type 0 where
  pub fe_logical : ℕ
  pub fe_physical : ℕ
  pub fe_length : ℕ
  pub fe_flags : ℕ

-- `flags & bit != 0`, for a power of two.
abbrev pub has_flag : ℕ → ℕ → Bool
has_flag bit flags = flags / bit % 2 == 1

abbrev pub fiemap_extent_last : ℕ
fiemap_extent_last = 0x1

abbrev pub fiemap_extent_unknown : ℕ
fiemap_extent_unknown = 0x2

abbrev pub fiemap_extent_delalloc : ℕ
fiemap_extent_delalloc = 0x4

abbrev pub fiemap_extent_data_inline : ℕ
fiemap_extent_data_inline = 0x200

-- A `u32` shifted to the left loses its high bits.
abbrev pub shl32 : ℕ → ℕ → ℕ
shl32 x k = x * 2 ^ k % 2 ^ 32

unfoldable pub ioc : ℕ → ℕ → ℕ → ℕ → ℕ
ioc dir ty nr size =
    bit_or (bit_or (bit_or (shl32 dir 30) (shl32 ty 8)) (shl32 nr 0)) (shl32 size 16)

-- The header has 32 bytes; `'f'` is 102.
abbrev pub fs_ioc_fiemap : ℕ
fs_ioc_fiemap = ioc (bit_or 2 1) 102 11 32

unfoldable pub unusable : FiemapExtent → Bool
unusable e =
    has_flag fiemap_extent_unknown e.fe_flags
    || has_flag fiemap_extent_delalloc e.fe_flags
    || has_flag fiemap_extent_data_inline e.fe_flags

-- By the start of the range and the number of extents that are asked for.
module _ (fiemap : ℕ → ℕ → Option (List FiemapExtent)) where
  abbrev pub first_offset : Option (List FiemapExtent) → Option ℕ
  first_offset none = none
  first_offset (some []) = none
  first_offset (some (e ∷ es)) = if unusable e then none else some e.fe_physical

  unfoldable pub first_physical_offset : Option ℕ
  first_physical_offset = first_offset (fiemap 0 1)

abbrev pub batch_extents : ℕ
batch_extents = 64

abbrev pub triple : FiemapExtent → ℕ × ℕ × ℕ
triple e = (e.fe_logical, e.fe_physical, e.fe_length)

-- What one batch adds, whether the last extent was in it, and where the next one begins.
unfoldable pub read_extents : ℕ → List FiemapExtent → List (ℕ × ℕ × ℕ) × Bool × ℕ
read_extents next_logical [] = ([], false, next_logical)
read_extents next_logical (e ∷ es) =
    let (out, last, next) = read_extents (e.fe_logical + e.fe_length) es in
    (triple e ∷ out, has_flag fiemap_extent_last e.fe_flags || last, next)

-- `Err(_)`, the extents, or no end within the rounds given.
pub data Extents : Type 0 where
  refused : Extents
  mapped : List (ℕ × ℕ × ℕ) → Extents
  endless : Extents

abbrev pub prepend : List (ℕ × ℕ × ℕ) → Extents → Extents
prepend out Extents.refused = Extents.refused
prepend out (Extents.mapped more) = Extents.mapped (out ++ more)
prepend out Extents.endless = Extents.endless

module _ (fiemap : ℕ → ℕ → Option (List FiemapExtent)) where
  abbrev pub after_batch : (ℕ → Extents) → ℕ → Option (List FiemapExtent) → Extents
  after_batch again next_logical none = Extents.refused
  after_batch again next_logical (some []) = Extents.mapped []
  after_batch again next_logical (some (e ∷ es)) =
      let (out, last, next) = read_extents next_logical (e ∷ es) in
      if last then Extents.mapped out else prepend out (again next)

  -- The loop, on the number of rounds.
  unfoldable pub extents_from : ℕ → ℕ → Extents
  extents_from zero next_logical = Extents.endless
  extents_from (suc rounds) next_logical =
      after_batch (extents_from rounds) next_logical (fiemap next_logical batch_extents)

  unfoldable pub extents : ℕ → Extents
  extents rounds = extents_from rounds 0
