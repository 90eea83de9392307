-- ===== src/Tests/BulkWalk.antt =====
-- A buffer with one record: a file "a" of 5 bytes.
use tzip.Prelude.{ℕ, ◌≡◌, refl, Option, some, List, [], ◌∷◌}
use tzip.Bytes.{Bytes, read_le, slice}
use tzip.Walk.Item.{WorkItem}
use tzip.Channel.{Channel}
use tzip.Walk.Bulk.{Found, parse_record}
use tzip.Tests.Toy.{open_channel}

-- The length, the attributes that are there, where the name is, the type, room, the size, and the name.
abbrev buffer : Bytes
buffer =
    52 ∷ 0 ∷ 0 ∷ 0 ∷ 9 ∷ 0 ∷ 0 ∷ 0 ∷ 0 ∷ 0 ∷ 0 ∷ 0 ∷ 0 ∷ 0 ∷ 0 ∷ 0 ∷ 2 ∷ 0 ∷ 0 ∷ 0 ∷ 0 ∷ 0 ∷ 0 ∷ 0
    ∷ 24 ∷ 0 ∷ 0 ∷ 0 ∷ 2 ∷ 0 ∷ 0 ∷ 0 ∷ 1 ∷ 0 ∷ 0 ∷ 0 ∷ 0 ∷ 0 ∷ 0 ∷ 0 ∷ 5 ∷ 0 ∷ 0 ∷ 0 ∷ 0 ∷ 0 ∷ 0 ∷ 0
    ∷ 97 ∷ 0 ∷ 0 ∷ 0 ∷ []

parses : parse_record 1 8 2 0 buffer ≡ some (52, Found.entry (97 ∷ []) 1 5)
unfolding parse_record read_le slice
parses = refl

abbrev found : Channel WorkItem
found = open_channel WorkItem

abbrev excluded : List Bytes
excluded = (98 ∷ []) ∷ []

abbrev listing : ℕ → List (Option (ℕ × Bytes))
listing fd = some (1, buffer) ∷ []

abbrev parse : ℕ → Bytes → Option (ℕ × Found)
parse = parse_record 1 8 2
