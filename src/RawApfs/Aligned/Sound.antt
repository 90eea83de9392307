-- ===== src/RawApfs/Aligned/Sound.antt =====
-- The reads of src/raw_apfs.rs against the device.
use mathlib.Core.Path.{subst}
use tzip.Prelude.{
  ℕ, zero, suc, ◌+◌, ◌-◌, ◌^◌, ◌≤◌, ◌<◌, ◌==◌, ◌≡◌, refl, ap, ◌∙◌, arith, true, false, leb, ltb,
  min, Bool, Bool-cases, inl, inr, ◌⊎◌, Option, none, some, some-inj, List, [], ◌∷◌, ◌++◌, length,
  take, drop, if◌then◌else◌, length-take, length-drop, length-append, take_add, take_length-take,
  drop-drop,
}
use native.Mathlib.Nat.{div-mul-le_self, lt-div-mul-add}
use tzip.Bytes.{Bytes, slice}
use tzip.Bytes.Slices.{slice-slice}
use tzip.RawApfs.Aligned.Mirror.{IsMirror, shared_get-IsBlock, put_blocks-IsMirror}
use tzip.RawApfs.Shards.{shared_get}
use tzip.RawApfs.Aligned.{
  AlignedRawReader, DeviceRead, fill, put_blocks, aligned_from, aligned_to, from_device, from_cache,
  read, read_ahead,
}

module _ (disk : Bytes) (block : ℕ) where
  -- What was read so far, and that it is all that was asked for or all there is.
  abbrev IsFilled : ℕ → ℕ → Bytes → Type 0
  IsFilled start want g =
      (g ≡ take (length g) (drop start disk))
      × ((want ≤ length g) ⊎ (length disk ≤ start + length g))

  enough-IsFilled :
      (start want : ℕ) (got g : Bytes)
      → got ≡ take (length got) (drop start disk)
      → leb want (length got) ≡ true
      → some got ≡ some g
      → IsFilled start want g
  enough-IsFilled start want got g e enough h =
      subst (IsFilled start want) (some-inj h) (e, inl (ground arith))

  fill-IsFilled :
      (start want : ℕ) (calls : List DeviceRead) (got g : Bytes)
      → got ≡ take (length got) (drop start disk)
      → fill disk start want calls got ≡ some g
      → IsFilled start want g
  unfolding fill
  fill-IsFilled start want [] got g e h = elim (Bool-cases (leb want (length got))) [
    | inl enough ↦ enough-IsFilled start want got g e enough (rw enough at h)
    | inr more ↦ absurd (let h' : none ≡ some g = rw more at h in cc)
  ]
  fill-IsFilled start want (DeviceRead.interrupted ∷ calls) got g e h =
      elim (Bool-cases (leb want (length got))) [
        | inl enough ↦ enough-IsFilled start want got g e enough (rw enough at h)
        | inr more ↦ fill-IsFilled start want calls got g e (rw more at h)
      ]
  fill-IsFilled start want (DeviceRead.broken ∷ calls) got g e h =
      elim (Bool-cases (leb want (length got))) [
        | inl enough ↦ enough-IsFilled start want got g e enough (rw enough at h)
        | inr more ↦ absurd (let h' : none ≡ some g = rw more at h in cc)
      ]
  fill-IsFilled start want (DeviceRead.brings n ∷ calls) got g e h =
      let room : ℕ = min (suc n) (want - length got) in
      let piece : Bytes = take room (drop (start + length got) disk) in
      let size : length piece ≡ min room (length disk - (start + length got)) = omega (
        arith,
        length-take room (drop (start + length got) disk),
        length-drop (start + length got) disk,
      ) in
      let behind : drop (length got) (drop start disk) ≡ drop (start + length got) disk =
        drop-drop (length got) start disk in
      let next : got ++ piece ≡ take (length (got ++ piece)) (drop start disk) =
        rw
          (
            length-append got piece,
            take_add (length got) (length piece) (drop start disk),
            behind,
            take_length-take room (drop (start + length got) disk),
          )
          (ap (λ (b : Bytes). b ++ piece) e) in
      elim (Bool-cases (leb want (length got))) [
        | inl enough ↦ enough-IsFilled start want got g e enough (rw enough at h)
        | inr more ↦ elim (Bool-cases (length piece == 0)) [
          | inl over ↦
              let same : some got ≡ some g = rw (more, over) at h in
              let end : length disk ≤ start + length got = ground arith in
              subst (IsFilled start want) (some-inj same) (e, inr end)
          | inr on ↦ fill-IsFilled start want calls (got ++ piece) g next (rw (more, on) at h)
        ]
      ]

-- A read gave out some bytes of the device and went on behind them; none only at the end.
pub record IsRead (disk : Bytes) (block want : ℕ) (r : AlignedRawReader)
    (p : Bytes × AlignedRawReader) : Type 0 where
  pub count : ℕ
  pub bytes : p.0 ≡ slice r.pos (r.pos + count) disk
  pub bounded : count ≤ want
  pub moves : p.1.pos ≡ r.pos + count
  pub mirror : IsMirror disk block p.1.cache
  pub ends : count ≡ 0 → (want ≡ 0) ⊎ (length disk ≤ r.pos)

part_of :
    (disk g : Bytes) (start at_pos n : ℕ)
    → g ≡ take (length g) (drop start disk)
    → start ≤ at_pos
    → n ≤ length g - (at_pos - start)
    → slice (at_pos - start) (at_pos - start + n) g ≡ slice at_pos (at_pos + n) disk
part_of disk g start at_pos zero e low room =
    let a : at_pos - start + 0 - (at_pos - start) ≡ 0 = omega arith in
    let b : at_pos + 0 - at_pos ≡ 0 = omega arith in unfold slice in rw (a, b) refl
part_of disk g start at_pos (suc n) e low room =
    let width : start + length g - start ≡ length g = omega arith in
    let whole : g ≡ slice start (start + length g) disk = unfold slice in rw width e in
    ap (λ (b : Bytes). slice (at_pos - start) (at_pos - start + suc n) b) whole
    ∙ slice-slice start (start + length g) at_pos (suc n) disk low (omega arith)

module _ (disk : Bytes) (r : AlignedRawReader) (want : ℕ) (pos : 0 < r.block)
    (small : r.block ≤ read_ahead) (mirror : IsMirror disk r.block r.cache) where
  start_le : aligned_from r.block r.pos ≤ r.pos
  unfolding aligned_from
  start_le = div-mul-le_self r.pos r.block

  near_start : r.pos < aligned_from r.block r.pos + r.block
  unfolding aligned_from
  near_start = lt-div-mul-add pos

  put_if :
      (widen : Bool) (g : Bytes)
      → g ≡ take (length g) (drop (aligned_from r.block r.pos) disk)
      → IsMirror disk r.block (
          if widen
          then put_blocks (length g) r.block (aligned_from r.block r.pos) g r.cache
          else r.cache)
  put_if true g e =
      put_blocks-IsMirror disk r.block (length g) (aligned_from r.block r.pos) g r.cache e mirror
  put_if false g e = mirror

  from_device-IsRead :
      (widen : Bool) (o : Option Bytes) (p : Bytes × AlignedRawReader) (phys_len : ℕ)
      → read_ahead ≤ phys_len
      → ((g : Bytes) → o ≡ some g → IsFilled disk r.block (aligned_from r.block r.pos) phys_len g)
      → from_device r want (aligned_from r.block r.pos) widen o ≡ some p
      → IsRead disk r.block want r p
  from_device-IsRead widen none p phys_len wide filled h = absurd cc
  from_device-IsRead widen (some g) p phys_len wide filled h =
      let start : ℕ = aligned_from r.block r.pos in
      let n : ℕ = min want (length g - (r.pos - start)) in
      let (front, complete) = filled g refl in
      let low : start ≤ r.pos = start_le in
      let near : r.pos < start + r.block = near_start in
      subst (IsRead disk r.block want r) (some-inj h) (record {
        count = n;
        bytes = part_of disk g start r.pos n front low (omega arith);
        bounded = omega arith;
        moves = refl;
        mirror = put_if widen g front;
        ends = λ z. elim complete [
          | inl enough ↦ inl (omega arith)
          | inr all ↦ elim (Bool-cases (want == 0)) [
            | inl nothing ↦ inl (ground arith)
            | inr some_wanted ↦ inr (let positive : 0 < want = ground arith in omega arith)
          ]
        ];
      })

  from_cache-IsRead :
      (otherwise : Option (Bytes × AlignedRawReader)) (cached : Option Bytes)
      (p : Bytes × AlignedRawReader)
      → shared_get r.cache (aligned_from r.block r.pos) ≡ cached
      → (otherwise ≡ some p → IsRead disk r.block want r p)
      → from_cache r want (aligned_from r.block r.pos) otherwise cached ≡ some p
      → IsRead disk r.block want r p
  from_cache-IsRead otherwise none p e k h = k h
  from_cache-IsRead otherwise (some cached) p e k h =
      let start : ℕ = aligned_from r.block r.pos in
      let n : ℕ = min want (r.block - (r.pos - start)) in
      let block : cached ≡ slice start (start + r.block) disk =
        shared_get-IsBlock disk r.block r.cache start cached mirror e in
      let low : start ≤ r.pos = start_le in
      let near : r.pos < start + r.block = near_start in
      subst (IsRead disk r.block want r) (some-inj h) (record {
        count = n;
        bytes =
            ap (λ (b : Bytes). slice (r.pos - start) (r.pos - start + n) b) block
            ∙ slice-slice start (start + r.block) r.pos n disk low (omega arith);
        bounded = omega arith;
        moves = refl;
        mirror = mirror;
        ends = λ z. inl (omega arith);
      })

  -- Of a device and a cache that holds blocks of it: what a read gives are the bytes of the device at the
  -- reader's place, no more than were asked for, and none only at the device's end; the reader goes on behind
  -- them, and the cache still holds blocks of the device. (Blocks are no larger than the read-ahead.)
  pub read-IsRead :
      (calls : List DeviceRead) (p : Bytes × AlignedRawReader)
      → read disk calls want r ≡ some p
      → IsRead disk r.block want r p
  unfolding read
  read-IsRead calls p h =
      let start : ℕ = aligned_from r.block r.pos in
      let len : ℕ = aligned_to r.block (min (r.pos + want) (2 ^ 64 - 1)) - start in
      let phys_len : ℕ = if ltb len read_ahead then read_ahead else len in
      let wide : read_ahead ≤ phys_len = ground arith in
      let device : from_device r want start (ltb len read_ahead) (fill disk start phys_len calls [])
            ≡ some p
          → IsRead disk r.block want r p =
        from_device-IsRead (ltb len read_ahead) (fill disk start phys_len calls []) p phys_len wide
          (λ g e. fill-IsFilled disk r.block start phys_len calls [] g refl e) in
      elim (Bool-cases (want == 0)) [
        | inl nothing ↦
            let h' : some ([], r) ≡ some p = rw nothing at h in
            let none_wanted : want ≡ 0 = ground arith in
            subst (IsRead disk r.block want r) (some-inj h') (record {
              count = 0;
              bytes =
                  let width : r.pos + 0 - r.pos ≡ 0 = omega arith in unfold slice in rw width refl;
              bounded = omega arith;
              moves = omega arith;
              mirror = mirror;
              ends = λ z. inl none_wanted;
            })
        | inr more ↦ elim (Bool-cases (len == r.block)) [
          | inl one_block ↦
              from_cache-IsRead
                (from_device r want start (ltb len read_ahead) (fill disk start phys_len calls []))
                (shared_get r.cache start) p refl device (rw (more, one_block) at h)
          | inr blocks ↦ device (rw (more, blocks) at h)
        ]
      ]
