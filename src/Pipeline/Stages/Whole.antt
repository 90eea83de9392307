-- ===== src/Pipeline/Stages/Whole.antt =====
-- What `run` of src/pipeline.rs has written when its threads are joined, whatever their schedule.
use tzip.Prelude.{
  ℕ, suc, ◌+◌, ◌≤◌, ◌<◌, ◌≡◌, ◌≢◌, refl, sym, ap, ◌∙◌, arith, Bool, true, false, Option, none, some,
  some-inj, >>=-eq-some, List, [], ◌∷◌, ◌>>=◌, length, take-all, get_elem?, get_elem?-All, All,
  if◌then◌else◌,
}
use tzip.Prelude.Sort.{sort_by_key, sort_by_key-All, length-sort_by_key}
use tzip.Prelude.Ranks.{Ranked, once-Ranked}
use tzip.Walk.Item.{WorkItem}
use tzip.Channel.{RawItem}
use tzip.Compress.{Scratch}
use tzip.Zip.Entry.{EncodedEntry}
use tzip.Zip.Writer.{ZipWriter, write_entry, write_entries}
use tzip.Pipeline.Reorder.{Loop, start, receive, write_sorted}
use tzip.Pipeline.Reorder.Order.{write_sorted-order, view}
use tzip.Pipeline.Stages.{Setup, Salt, encode, Thread, Main, begin, write_one, write_next, run}
use tzip.Pipeline.Stages.Ends.{Returned, returned}
use tzip.Pipeline.Stages.Contents.{IsEncoded}
use tzip.Pipeline.Stages.Over.{main-IsOver, arrived_once}
use tzip.Pipeline.Stages.Sound.{receives, MainHas, run-Inv, begin-Inv}

-- `ys` goes with `xs`, place by place.
abbrev pub Each : {A B : Type 0} → (A → B → Type 0) → List A → List B → Type 0
Each P [] [] = Unit
Each P [] (y ∷ ys) = ⊥
Each P (x ∷ xs) [] = ⊥
Each P (x ∷ xs) (y ∷ ys) = P x y × Each P xs ys

module _ {A B : Type 0} (P : A → B → Type 0) where
  pointwise-Each :
      (xs : List A) (ys : List B)
      → length xs ≡ length ys
      → ((i : ℕ) (x : A) (y : B) → get_elem? xs i ≡ some x → get_elem? ys i ≡ some y → P x y)
      → Each P xs ys
  pointwise-Each [] [] e h = tt
  pointwise-Each [] (y ∷ ys) e h = absurd (omega arith)
  pointwise-Each (x ∷ xs) [] e h = absurd (omega arith)
  pointwise-Each (x ∷ xs) (y ∷ ys) e h =
      (h 0 x y refl refl, pointwise-Each xs ys (omega arith) (λ i x' y' a b. h (suc i) x' y' a b))

  pub Each-weaken :
      (Q : A → B → Type 0)
      → ((x : A) (y : B) → P x y → Q x y)
      → (xs : List A) (ys : List B) → Each P xs ys
      → Each Q xs ys
  Each-weaken Q f [] [] h = tt
  Each-weaken Q f [] (y ∷ ys) h = h
  Each-weaken Q f (x ∷ xs) [] h = h
  Each-weaken Q f (x ∷ xs) (y ∷ ys) (p, h) = (f x y p, Each-weaken Q f xs ys h)

module _ (u : Setup) where
  -- What `encode_one` makes of a file, with the bytes that the source reads for it.
  pub record IsEntryOf (item : WorkItem) (e : EncodedEntry) : Type 0 where
    pub raw : RawItem
    pub salt : Salt
    pub scratch : Scratch u.codecs
    pub of_item : raw.item ≡ item
    pub reads : u.read raw.item ≡ some raw.bytes
    pub made : (encode u salt raw scratch).1 ≡ some e

  -- The entries in the order of their indices.
  abbrev pub by_index : List EncodedEntry → List EncodedEntry
  by_index a = sort_by_key (λ e. e.index) a

  module _ (zw : ZipWriter u.sink) (items : List WorkItem) where
    -- One entry for every item, at the place of the item in the walk.
    abbrev pub IsWhole : List EncodedEntry → Type 0
    IsWhole a = Each IsEntryOf items (by_index a)

    Ranked-IsWhole :
        (a : List EncodedEntry)
        → Ranked (λ (e : EncodedEntry). e.index) (length items) a
        → All (IsEncoded u items) a
        → IsWhole a
    Ranked-IsWhole a r h =
        pointwise-Each IsEntryOf items (by_index a) (sym r.sized) (λ i item e at_item at_e.
          encoded_at i item e at_item (r.index i e at_e) (
            get_elem?-All (IsEncoded u items) (by_index a) i e
              (sort_by_key-All (λ (x : EncodedEntry). x.index) (IsEncoded u items) a h) at_e))
      where
        encoded_at :
            (i : ℕ) (item : WorkItem) (e : EncodedEntry)
            → get_elem? items i ≡ some item
            → e.index ≡ i
            → IsEncoded u items e
            → IsEntryOf item e
        encoded_at i item e at_item at_e c =
            let there : get_elem? items c.raw.index ≡ some item =
              ap (get_elem? items) (sym c.same ∙ at_e) ∙ at_item in
            record {
              raw = c.raw;
              salt = c.salt;
              scratch = c.scratch;
              of_item = some-inj (sym c.read.placed ∙ there);
              reads = c.read.reads;
              made = c.made;
            }

    sorted_one :
        (l : Loop u.sink) (e : EncodedEntry) → u.sort ≡ true → write_one u l e ≡ receive u.sink l e
    unfolding write_one
    sorted_one l e h = ap (λ b. if b then receive u.sink l e else write_next u l e) h

    plain_one :
        (l : Loop u.sink) (e : EncodedEntry) → u.sort ≡ false → write_one u l e ≡ write_next u l e
    unfolding write_one
    plain_one l e h = ap (λ b. if b then receive u.sink l e else write_next u l e) h

    receives_sorted :
        (l : Loop u.sink) (a : List EncodedEntry)
        → u.sort ≡ true
        → receives u l a ≡ write_sorted u.sink l a
    unfolding receives write_sorted
    receives_sorted l [] h = refl
    receives_sorted l (e ∷ a) h =
        at_next (write_one u l e) (receive u.sink l e) (sorted_one l e h)
          (λ l'. receives_sorted l' a h)
      where
        at_next :
            (o o' : Option (Loop u.sink))
            → o ≡ o'
            → ((l' : Loop u.sink) → receives u l' a ≡ write_sorted u.sink l' a)
            → (o >>= λ l'. receives u l' a) ≡ (o' >>= λ l'. write_sorted u.sink l' a)
        at_next o none same ih = ap (λ x. x >>= λ l'. receives u l' a) same
        at_next o (some l') same ih = ap (λ x. x >>= λ l'. receives u l' a) same ∙ ih l'

    receives_plain :
        (l l' : Loop u.sink) (a : List EncodedEntry)
        → u.sort ≡ false
        → receives u l a ≡ some l'
        → (write_entries u.sink l.zw a ≡ some l'.zw) × (l'.wrote_files ≡ l.wrote_files + length a)
    unfolding receives write_entries
    receives_plain l l' [] h e =
        let same : l ≡ l' = some-inj e in
        (
          ap (λ (k : Loop u.sink). some k.zw) same,
          omega (arith, ap (λ (k : Loop u.sink). k.wrote_files) same),
        )
    receives_plain l l' (x ∷ a) h e =
        let (l1, one, rest) = >>=-eq-some (write_one u l x) (λ k. receives u k a) e in
        let (zw1, wrote, next) =
          >>=-eq-some (write_entry u.sink l.zw x)
            (λ z. some (record l { zw = z; wrote_files = l.wrote_files + 1 }))
            (sym (plain_one l x h) ∙ one) in
        let (entries, count) = receives_plain l1 l' a h rest in
        let same = some-inj next in
        let at_zw : l1.zw ≡ zw1 = ap (λ (k : Loop u.sink). k.zw) (sym same) in
        let at_count : l1.wrote_files ≡ l.wrote_files + 1 =
          ap (λ (k : Loop u.sink). k.wrote_files) (sym same) in
        (
          ap (λ o. o >>= λ z. write_entries u.sink z a) wrote
              ∙ ap (λ z. write_entries u.sink z a) (sym at_zw)
              ∙ entries,
          omega arith,
        )

    -- The order in which the entries are written.
    abbrev pub order : Bool → List EncodedEntry → List EncodedEntry
    order sort a = if sort then by_index a else a

    abbrev pub Wrote : Bool → List EncodedEntry → Loop u.sink → Type 0
    Wrote sort a l =
        (write_entries u.sink zw (order sort a) ≡ some l.zw) × (l.wrote_files ≡ length items)

    counted-inv :
        (m : ℕ) (o : Option (ZipWriter u.sink)) (l : Loop u.sink)
        → ◌≡◌ {A = Option (ZipWriter u.sink × ℕ)}
            (some (l.zw, l.wrote_files))
            (o >>= λ z. some (z, m))
        → (o ≡ some l.zw) × (l.wrote_files ≡ m)
    counted-inv m none l h = absurd cc
    counted-inv m (some z) l h =
        let same : ◌≡◌ {A = ZipWriter u.sink × ℕ} (l.zw, l.wrote_files) (z, m) = some-inj h in
        (ap (λ p. some p.0) (sym same), ap (λ p. p.1) same)

    module _ (a : List EncodedEntry)
        (r : Ranked (λ (e : EncodedEntry). e.index) (length items) a) where
      ours :
          All
            (λ (e : EncodedEntry).
              (get_elem? (by_index a) e.index ≡ some e) × (e.index ≢ length items))
            a
      ours = both a r.found r.below
        where
          both :
              (xs : List EncodedEntry)
              → All (λ (e : EncodedEntry). get_elem? (by_index a) e.index ≡ some e) xs
              → All (λ (e : EncodedEntry). e.index < length items) xs
              → All
                  (λ (e : EncodedEntry).
                    (get_elem? (by_index a) e.index ≡ some e) × (e.index ≢ length items))
                  xs
          both [] h k = tt
          both (x ∷ xs) (p, h) (q, k) = ((p, omega arith), both xs h k)

      Wrote-sorted :
          (l : Loop u.sink) (sort : Bool)
          → u.sort ≡ sort
          → receives u (start u.sink zw) a ≡ some l
          → Wrote sort a l
      Wrote-sorted l true h e =
          let all_taken = take-all (length items) (by_index a) (omega (arith, r.sized)) in
          let seen = write_sorted-order u.sink (by_index a) (length items) a zw ours r.covers in
          let took = sym (receives_sorted (start u.sink zw) a h) ∙ e in
          counted-inv (length items) (write_entries u.sink zw (by_index a)) l (
            rw (← all_taken)
              (ap (λ o. view u.sink (by_index a) (length items) o) (sym took) ∙ seen))
      Wrote-sorted l false h e =
          let (entries, count) = receives_plain (start u.sink zw) l a h e in
          (entries, omega (arith, r.sized, length-sort_by_key (λ (x : EncodedEntry). x.index) a))

    -- With a reader and a worker at least, whatever the schedule of the threads: when `run` comes back
    -- from its joins without an error, the writer has written one entry for every item of the walk,
    -- made by `encode_one` from the bytes that the source reads for that item, and it counts as many
    -- files as there are items. With `--sort` the entries stand in the order of the walk, else in that
    -- of their arrival.
    pub run-IsWhole :
        (ts : List Thread) (l : Loop u.sink)
        → 1 ≤ u.read_jobs
        → 1 ≤ u.cpu_jobs
        → returned u (run u (begin u zw items) ts) ≡ Returned.joined l
        → (a : List EncodedEntry) × IsWhole a × Wrote u.sort a l
    run-IsWhole ts l some_reader some_worker back =
        let s = run u (begin u zw items) ts in
        let (a, inv) =
          run-Inv u zw items ts [] (begin u zw items)
            (begin-Inv u zw items some_reader some_worker) in
        let over = main-IsOver u l s s.main refl back in
        let once = arrived_once u l zw items a s over (inv.fine over.no_failure) in
        let r = once-Ranked (λ (e : EncodedEntry). e.index) (length items) a once in
        let wrote : MainHas u zw a (Main.written l) = rw over.main_is at inv.written in
        (a, Ranked-IsWhole a r inv.contents.arrived, Wrote-sorted a r l u.sort refl wrote)
