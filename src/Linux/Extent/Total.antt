-- ===== src/Linux/Extent/Total.antt =====
-- When the bulk reads of src/linux_raw.rs succeed, and what an error means.
use tzip.Prelude.{
  ℕ, ◌≡◌, refl, sym, ◌∙◌, arith, Option, none, some, inl, inr, List, [], ◌∷◌, map, All, Any, length,
  concat, concat-All, Any-concat, All-trivial, ◌≢◌,
}
use tzip.Prelude.Chunks.{chunks, concat-chunks}
use tzip.Prelude.Sort.{sort_by_key, sort_by_key-All, sort_by_key-Any}
use tzip.Bytes.{Bytes}
use tzip.Walk.Item.{WorkItem}
use tzip.Channel.{RawItem, Channel, Outcome, then_loop_total, then_loop_failed}
use tzip.Linux.Extent.{
  FileSystem, window_files, Entry, probe, read, read_opened, sent_read, send_read, read_entry,
  ordered, read_window, bulk_read_all,
}
use tzip.Linux.Extent.Complete.{IsProbed, probe-IsProbed, map-IsProbed, read_opened-read}

module _ (fs : FileSystem) (ch : Channel RawItem) where
  abbrev pub IsReadable : ℕ × WorkItem → Type 0
  IsReadable (index, item) = (bytes : Bytes) × (read fs item ≡ some bytes)

  abbrev IsGood : Entry fs → Type 0
  IsGood e = IsProbed fs e × IsReadable (e.index, e.item)

  map-IsGood : (xs : List (ℕ × WorkItem)) → All IsReadable xs → All IsGood (map (probe fs) xs)
  unfolding probe
  map-IsGood [] h = tt
  map-IsGood ((index, item) ∷ xs) (r, h) = ((probe-IsProbed fs (index, item), r), map-IsGood xs h)

  module _
      (is_open : (r : RawItem) (s : ch.State) → (s' : ch.State) × (ch.send r s ≡ some s')) where
    read_entry_total :
        (e : Entry fs) (s : ch.State)
        → IsGood e
        → (s' : ch.State) × (read_entry fs ch e s ≡ Outcome.next s')
    unfolding read_entry
    read_entry_total e s (p, (bytes, r)) =
        let (s', sent) = is_open (record { index = e.index; item = e.item; bytes = bytes }) s in
        let same : read_opened fs e.file e.item ≡ some bytes =
          read_opened-read fs e.file e.item p ∙ r in
        rw (same, sent) (s', refl)

    read_window_total :
        (w : List (ℕ × WorkItem)) (s : ch.State)
        → All IsReadable w
        → (s' : ch.State) × (read_window fs ch w s ≡ Outcome.next s')
    unfolding read_window ordered
    read_window_total w s h =
        then_loop_total (read_entry fs ch) IsGood read_entry_total
          (sort_by_key (λ e. e.phys) (map (probe fs) w)) s
          (sort_by_key-All (λ e. e.phys) IsGood (map (probe fs) w) (map-IsGood w h))

    -- Where every item can be read and the channel stays open, `bulk_read_all` succeeds.
    pub bulk_read_all_total :
        (items : List (ℕ × WorkItem)) (s : ch.State)
        → All IsReadable items
        → (s' : ch.State) × (bulk_read_all fs ch items s ≡ Outcome.next s')
    unfolding bulk_read_all
    bulk_read_all_total items s h =
        let ws = chunks (length items) window_files items in
        let back : concat ws ≡ items =
          concat-chunks (length items) window_files items (omega arith) (omega arith) in
        then_loop_total (read_window fs ch) (All IsReadable) read_window_total ws s
          (concat-All IsReadable ws (rw back h))

  abbrev pub IsUnreadable : ℕ × WorkItem → Type 0
  IsUnreadable (index, item) = read fs item ≡ none

  sent_read_goes_on :
      (s : ch.State) (o : Option ch.State) (t : ch.State) → sent_read fs ch s o ≢ Outcome.failed t
  sent_read_goes_on s none t h = absurd cc
  sent_read_goes_on s (some s') t h = absurd cc

  send_read_failed :
      (index : ℕ) (item : WorkItem) (bytes : Option Bytes) (s t : ch.State)
      → send_read fs ch index item bytes s ≡ Outcome.failed t
      → bytes ≡ none
  send_read_failed index item none s t h = refl
  send_read_failed index item (some bytes) s t h =
      absurd
        (sent_read_goes_on s (ch.send (record { index = index; item = item; bytes = bytes }) s) t h)

  read_entry_failed :
      (e : Entry fs) (s t : ch.State)
      → IsProbed fs e
      → read_entry fs ch e s ≡ Outcome.failed t
      → IsUnreadable (e.index, e.item)
  unfolding read_entry
  read_entry_failed e s t p h =
      sym (read_opened-read fs e.file e.item p)
      ∙ send_read_failed e.index e.item (read_opened fs e.file e.item) s t h

  Any-map :
      (xs : List (ℕ × WorkItem))
      → Any (λ e. IsUnreadable (e.index, e.item)) (map (probe fs) xs)
      → Any IsUnreadable xs
  unfolding probe
  Any-map [] h = h
  Any-map ((index, item) ∷ xs) (inl p) = inl p
  Any-map ((index, item) ∷ xs) (inr h) = inr (Any-map xs h)

  read_window_failed :
      (w : List (ℕ × WorkItem)) (s t : ch.State)
      → Unit {0}
      → read_window fs ch w s ≡ Outcome.failed t
      → Any IsUnreadable w
  unfolding read_window ordered
  read_window_failed w s t u h =
      let probed = map (probe fs) w in
      Any-map w (
        sort_by_key-Any (λ e. e.phys) (λ e. IsUnreadable (e.index, e.item)) probed
          (then_loop_failed (read_entry fs ch) (IsProbed fs) (λ e. IsUnreadable (e.index, e.item))
            read_entry_failed (sort_by_key (λ e. e.phys) probed) s t
            (sort_by_key-All (λ e. e.phys) (IsProbed fs) probed (map-IsProbed fs w)) h))

  -- `bulk_read_all` fails only where `read` fails on one of the items, and that the file cannot be probed or
  -- has no place on the disk is no error.
  pub bulk_read_all_failed :
      (items : List (ℕ × WorkItem)) (s t : ch.State)
      → bulk_read_all fs ch items s ≡ Outcome.failed t
      → Any IsUnreadable items
  unfolding bulk_read_all
  bulk_read_all_failed items s t h =
      let ws = chunks (length items) window_files items in
      let back : concat ws ≡ items =
        concat-chunks (length items) window_files items (omega arith) (omega arith) in
      rw back at (
        Any-concat IsUnreadable ws (
          then_loop_failed (read_window fs ch) (λ w. Unit {0}) (Any IsUnreadable) read_window_failed
            ws s t (All-trivial ws) h))
