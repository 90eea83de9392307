-- ===== src/Linux/Extent/Complete.antt =====
-- Windows of src/linux_raw.rs against reading item by item.
use tzip.Prelude.{
  ℕ, ◌≡◌, refl, sym, ap, ◌∙◌, arith, Option, none, some, Option-cases, inl, inr, List, [], ◌∷◌,
  ◌++◌, map, All, length, concat, append_assoc, append-nil, map-append, All-append, All-trivial,
}
use tzip.Prelude.Chunks.{chunks, concat-chunks}
use tzip.Prelude.Sort.{sort_by_key, sort_by_key-perm, sort_by_key-All}
use tzip.Bytes.{Bytes}
use tzip.Walk.Item.{WorkItem}
use tzip.Channel.{RawItem, Channel, Outcome, then_loop, and_then-eq-next, next-inj}
use tzip.Linux.Extent.{
  FileSystem, window_files, or_by_path, open_at_item, open_item, Entry, probe, read, read_opened,
  read_input, send_read, read_entry, ordered, read_window, bulk_read_all,
}
use mathlib.Core.List.{Perm}
use mathlib.Core.List.Perm

abbrev pub key : RawItem → ℕ × WorkItem
key r = (r.index, r.item)

module _ (fs : FileSystem) where
  abbrev pub entry_key : Entry fs → ℕ × WorkItem
  entry_key e = (e.index, e.item)

  abbrev pub IsProbed : Entry fs → Type 0
  IsProbed e = e.file ≡ open_item fs e.item

  pub probe-IsProbed : (x : ℕ × WorkItem) → IsProbed (probe fs x)
  unfolding probe
  probe-IsProbed (index, item) = refl

  pub map-IsProbed : (xs : List (ℕ × WorkItem)) → All IsProbed (map (probe fs) xs)
  map-IsProbed [] = tt
  map-IsProbed (x ∷ xs) = (probe-IsProbed x, map-IsProbed xs)

  map-entry_key : (xs : List (ℕ × WorkItem)) → map entry_key (map (probe fs) xs) ≡ xs
  unfolding probe
  map-entry_key [] = refl
  map-entry_key (x ∷ xs) = ap (λ (l : List (ℕ × WorkItem)). x ∷ l) (map-entry_key xs)

  or_by_path-none :
      (path : Bytes) (f : Option fs.File) → or_by_path fs path f ≡ none → fs.open_path path ≡ none
  or_by_path-none path (some f) h = absurd cc
  or_by_path-none path none h = h

  -- Where the file cannot be opened, the second try by the path fails too.
  open_none :
      (path : Bytes) (d : Option ℕ) (b : Option Bytes)
      → open_at_item fs path d b ≡ none
      → fs.open_path path ≡ none
  open_none path none b h = h
  open_none path (some d) none h = h
  open_none path (some d) (some b) h = or_by_path-none path (fs.open_at d b) h

  pub read_opened-read :
      (f : Option fs.File) (item : WorkItem)
      → f ≡ open_item fs item
      → read_opened fs f item ≡ read fs item
  unfolding read read_input open_item
  read_opened-read (some f) item h = rw (← h) refl
  read_opened-read none item h = rw (← h, open_none item.path item.dirfd item.basename (sym h)) refl

  module _ (ch : Channel RawItem) where
    -- What was sent on the way from one state to another: the items of `keys`, as `read` reads them.
    record Sent (keys : List (ℕ × WorkItem)) (s s' : ch.State) : Type 0 where
      out : List RawItem
      got : ch.received s' ≡ ch.received s ++ out
      whole : Perm (map key out) keys
      right : All (λ r. read fs r.item ≡ some r.bytes) out

    Sent-nil : (s : ch.State) → Sent [] s s
    Sent-nil s = record {
      out = [];
      got = sym (append-nil (ch.received s));
      whole = Perm.nil;
      right = tt;
    }

    Sent-append :
        (ks ks' : List (ℕ × WorkItem)) (s t u : ch.State)
        → Sent ks s t
        → Sent ks' t u
        → Sent (ks ++ ks') s u
    Sent-append ks ks' s t u a b = record {
      out = a.out ++ b.out;
      got =
          b.got
          ∙ (ap (λ (l : List RawItem). l ++ b.out) a.got
              ∙ append_assoc (ch.received s) a.out b.out);
      whole = rw (map-append key a.out b.out) (Perm.append a.whole b.whole);
      right = All-append (λ r. read fs r.item ≡ some r.bytes) a.out b.out a.right b.right;
    }

    abbrev flat {ℓ} : {A : Type ℓ} → (A → List (ℕ × WorkItem)) → List A → List (ℕ × WorkItem)
    flat keys [] = []
    flat keys (x ∷ xs) = keys x ++ flat keys xs

    then_loop-Sent :
        {A : Type 0} (f : A → ch.State → Outcome ch.State) (keys : A → List (ℕ × WorkItem))
        (P : A → Type 0)
        → ((x : A) (s s' : ch.State) → P x → f x s ≡ Outcome.next s' → Sent (keys x) s s')
        → (xs : List A) (s s' : ch.State) → All P xs
        → then_loop f xs s ≡ Outcome.next s'
        → Sent (flat keys xs) s s'
    then_loop-Sent f keys P each [] s s' h e = rw (next-inj e) (Sent-nil s')
    then_loop-Sent f keys P each (x ∷ xs) s s' (p, h) e =
        let (t, first, rest) = and_then-eq-next (f x s) (then_loop f xs) e in
        Sent-append (keys x) (flat keys xs) s t s' (each x s t p first)
          (then_loop-Sent f keys P each xs t s' h rest)

    send_read-Sent :
        (index : ℕ) (item : WorkItem) (bytes : Option Bytes) (s s' : ch.State)
        → bytes ≡ read fs item
        → send_read fs ch index item bytes s ≡ Outcome.next s'
        → Sent ((index, item) ∷ []) s s'
    send_read-Sent index item none s s' b h = absurd cc
    send_read-Sent index item (some bytes) s s' b h =
        let r : RawItem = record { index = index; item = item; bytes = bytes } in
        elim (Option-cases (ch.send r s)) [
          | inl gone ↦ let h' : Outcome.closed s ≡ Outcome.next s' = rw gone at h in absurd cc
          | inr (t, there) ↦
              let h' : Outcome.next t ≡ Outcome.next s' = rw there at h in
              record {
                out = r ∷ [];
                got = rw (next-inj h') at (ch.send-received r s t there);
                whole = Perm.rfl;
                right = (sym b, tt);
              }
        ]

    read_entry-Sent :
        (e : Entry fs) (s s' : ch.State)
        → IsProbed e
        → read_entry fs ch e s ≡ Outcome.next s'
        → Sent (entry_key e ∷ []) s s'
    unfolding read_entry
    read_entry-Sent e s s' p h =
        send_read-Sent e.index e.item (read_opened fs e.file e.item) s s'
          (read_opened-read e.file e.item p) h

    flat-singleton : (es : List (Entry fs)) → flat (λ e. entry_key e ∷ []) es ≡ map entry_key es
    flat-singleton [] = refl
    flat-singleton (e ∷ es) = ap (λ (l : List (ℕ × WorkItem)). entry_key e ∷ l) (flat-singleton es)

    flat-concat : (ws : List (List (ℕ × WorkItem))) → flat (λ w. w) ws ≡ concat ws
    flat-concat [] = refl
    flat-concat (w ∷ ws) = ap (λ (l : List (ℕ × WorkItem)). w ++ l) (flat-concat ws)

    Sent-perm :
        (ks ks' : List (ℕ × WorkItem)) (s t : ch.State) → Perm ks ks' → Sent ks s t → Sent ks' s t
    Sent-perm ks ks' s t p a = record {
      out = a.out;
      got = a.got;
      whole = Perm.trans a.whole p;
      right = a.right;
    }

    read_window-Sent :
        (w : List (ℕ × WorkItem)) (s s' : ch.State)
        → read_window fs ch w s ≡ Outcome.next s'
        → Sent w s s'
    unfolding read_window ordered
    read_window-Sent w s s' h =
        let probed = map (probe fs) w in
        let es = sort_by_key (λ e. e.phys) probed in
        let sent =
          then_loop-Sent (read_entry fs ch) (λ e. entry_key e ∷ []) IsProbed read_entry-Sent es s s'
            (sort_by_key-All (λ e. e.phys) IsProbed probed (map-IsProbed w)) h in
        Sent-perm (flat (λ e. entry_key e ∷ []) es) w s s'
          (rw (flat-singleton es)
            (rw (map-entry_key w) at (Perm.map entry_key (sort_by_key-perm (λ e. e.phys) probed))))
          sent

    -- When `bulk_read_all` succeeds with the channel still open, it has sent every item once, with its index
    -- and its `WorkItem` as they were given, and with the bytes that `read` gives for that item; nothing
    -- else was sent.
    pub bulk_read_all_complete :
        (items : List (ℕ × WorkItem)) (s s' : ch.State)
        → bulk_read_all fs ch items s ≡ Outcome.next s'
        → (out : List RawItem) × (ch.received s' ≡ ch.received s ++ out)
          × Perm (map key out) items
          × All (λ r. read fs r.item ≡ some r.bytes) out
    unfolding bulk_read_all
    bulk_read_all_complete items s s' h =
        let ws = chunks (length items) window_files items in
        let sent =
          then_loop-Sent (read_window fs ch) (λ w. w) (λ w. Unit)
            (λ w s t p g. read_window-Sent w s t g) ws s s' (All-trivial ws) h in
        let all =
          Sent-perm (flat (λ w. w) ws) items s s'
            (rw
              (
                flat-concat ws,
                concat-chunks (length items) window_files items (omega arith) (omega arith),
              )
              Perm.rfl)
            sent in
        (all.out, all.got, all.whole, all.right)
