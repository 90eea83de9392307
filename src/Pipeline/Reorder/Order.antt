-- ===== src/Pipeline/Reorder/Order.antt =====
-- The loop of `--sort` in src/pipeline.rs against `write_entries` on the sorted entries.
use tzip.Prelude.{
  ℕ, zero, suc, ◌+◌, ◌≤◌, ◌<◌, ◌≡◌, ◌≢◌, ◌⊎◌, inl, inr, refl, sym, ap, ◌∙◌, arith, Option, none,
  some, Option-cases, ◌>>=◌, List, [], ◌∷◌, length, get_elem?, take, drop, drop-take, drop-take-suc,
  All, Any,
}
use tzip.Zip.Entry.{EncodedEntry}
use tzip.Zip.Writer.{Sink, ZipWriter, write_entry, write_entries}
use tzip.Pipeline.Reorder.{Loop, start, drain, receive, write_sorted}
use tzip.Prelude.Assoc.{
  Map, lookup, remove, insert, length-remove, remove-some, remove-none, remove-other, insert-some,
  insert-none, insert-same, insert-other,
}

>>=-chain :
    {A B C D E : Type 0} (o : Option A) (f : A → Option B) (g : B → Option C) (v : C → Option D)
    (f' : A → Option E) (v' : E → Option D)
    → ((x : A) → (f x >>= g >>= v) ≡ (f' x >>= v'))
    → (o >>= f >>= g >>= v) ≡ (o >>= f' >>= v')
>>=-chain none _ _ _ _ _ h = refl
>>=-chain (some x) _ _ _ _ _ h = h x

lookup-empty : (k : ℕ) (p : Map EncodedEntry) → length p ≤ 0 → lookup k p ≡ none
unfolding lookup
lookup-empty k [] h = refl
lookup-empty k (x ∷ p) h = absurd (omega arith)

le-cases : (a b : ℕ) → a ≤ b → (a < b) ⊎ (a ≡ b)
le-cases a b h = omega arith

eq-cases : (a b : ℕ) → (a ≡ b) ⊎ (a ≢ b)
eq-cases a b = omega arith

none-some : {A : Type 0} {x : A} → none ≡ some x → ⊥
none-some h = cc

module _ (S : Sink) (es : List EncodedEntry) (m : ℕ) where
  abbrev IsOurs : EncodedEntry → Type 0
  IsOurs e = (get_elem? es e.index ≡ some e) × (e.index ≢ m)

  abbrev rest : ℕ → List EncodedEntry
  rest k = drop k (take m es)

  -- Between two arrivals, with the entries of `a` to come.
  record Ready (a : List EncodedEntry) (s : Loop S) : Type 0 where
    below : s.next_idx ≤ m
    counted : s.wrote_files ≡ s.next_idx
    waiting : (j : ℕ) (e : EncodedEntry) → lookup j s.pending ≡ some e → get_elem? es j ≡ some e
    missing : lookup m s.pending ≡ none
    covered :
        (j : ℕ) → s.next_idx ≤ j → j < m → (lookup j s.pending ≢ none) ⊎ Any (λ e. e.index ≡ j) a

  abbrev pub view : Option (Loop S) → Option (ZipWriter S × ℕ)
  view o = o >>= λ t. some (t.zw, t.wrote_files)

  -- The writer after `m` entries, with their number.
  abbrev pub counted_m : Option (ZipWriter S) → Option (ZipWriter S × ℕ)
  counted_m o = o >>= λ z. some (z, m)

  abbrev target : ZipWriter S → ℕ → Option (ZipWriter S × ℕ)
  target zw k = counted_m (write_entries S zw (rest k))

  abbrev advance : Loop S → ZipWriter S → Loop S
  advance s zw = record {
    zw = zw;
    pending = remove s.next_idx s.pending;
    next_idx = s.next_idx + 1;
    wrote_files = s.wrote_files + 1;
  }

  abbrev waits : Loop S → EncodedEntry → Loop S
  waits s e = record {
    zw = s.zw;
    pending = insert e.index e s.pending;
    next_idx = s.next_idx;
    wrote_files = s.wrote_files;
  }

  found_below :
      (a : List EncodedEntry) (s : Loop S) (e : EncodedEntry)
      → Ready a s
      → lookup s.next_idx s.pending ≡ some e
      → s.next_idx < m
  found_below a s e r found = elim (le-cases s.next_idx m r.below) [
    | inl lt ↦ lt
    | inr eq ↦ absurd (none-some {x = e} (sym r.missing ∙ rw (← eq) found))
  ]

  rest_step :
      (k : ℕ) (e : EncodedEntry) → k < m → get_elem? es k ≡ some e → rest k ≡ e ∷ rest (k + 1)
  rest_step k e h g = let next : k + 1 ≡ suc k = omega arith in rw next (drop-take-suc k m es e h g)

  -- The entry that is next goes out.
  Ready-next :
      (a : List EncodedEntry) (s : Loop S) (e : EncodedEntry) (zw : ZipWriter S)
      → Ready a s
      → lookup s.next_idx s.pending ≡ some e
      → Ready a (advance s zw)
  Ready-next a s e zw r found = record {
    below = omega (arith, r.below, found_below a s e r found);
    counted = omega (arith, r.counted);
    waiting = λ j e' h. r.waiting j e' (remove-some j s.next_idx s.pending e' h);
    missing = remove-none m s.next_idx s.pending r.missing;
    covered = λ j lo hi.
        rw (remove-other j s.next_idx s.pending (omega arith)) (r.covered j (omega arith) hi);
  }

  -- A round of the inner loop.
  abbrev round : ℕ → Loop S → Option EncodedEntry → Option (Loop S)
  round fuel s o = elim o [
    | none ↦ some s
    | some e ↦ do zw ← write_entry S s.zw e; drain S fuel (advance s zw)
  ]

  drain_stop :
      (fuel : ℕ) (s : Loop S) → lookup s.next_idx s.pending ≡ none → drain S (suc fuel) s ≡ some s
  drain_stop fuel s h = unfold drain in ap (round fuel s) h

  drain_step :
      (fuel : ℕ) (s : Loop S) (e : EncodedEntry)
      → lookup s.next_idx s.pending ≡ some e
      → drain S (suc fuel) s ≡ (write_entry S s.zw e >>= λ zw. drain S fuel (advance s zw))
  drain_step fuel s e h = unfold drain in ap (round fuel s) h

  -- What is left to write, given what the rest of the arrivals leads to.
  drain-target :
      (a : List EncodedEntry)
      → ((s : Loop S)
          → Ready a s
          → lookup s.next_idx s.pending ≡ none
          → view (write_sorted S s a) ≡ target s.zw s.next_idx)
      → (fuel : ℕ) (s : Loop S) → length s.pending ≤ fuel
      → Ready a s
      → view (drain S fuel s >>= λ t. write_sorted S t a) ≡ target s.zw s.next_idx
  unfolding write_entries
  drain-target a ih zero s h r = unfold drain in ih s r (lookup-empty s.next_idx s.pending h)
  drain-target a ih (suc fuel) s h r = elim (Option-cases (lookup s.next_idx s.pending)) [
    | inl over ↦ rw (drain_stop fuel s over) (ih s r over)
    | inr (e, found) ↦
        let here =
          rest_step s.next_idx e (found_below a s e r found) (r.waiting s.next_idx e found) in
        let smaller = length-remove s.next_idx s.pending e found in
        rw (drain_step fuel s e found, here)
          (>>=-chain (write_entry S s.zw e) _ _ _ _ _ (λ zw.
            drain-target a ih fuel (advance s zw) (omega arith) (Ready-next a s e zw r found)))
  ]

  -- An entry that arrives waits.
  Ready-insert :
      (a : List EncodedEntry) (s : Loop S) (e : EncodedEntry)
      → IsOurs e
      → Ready (e ∷ a) s
      → Ready a (waits s e)
  Ready-insert a s e (here, differs) r = record {
    below = r.below;
    counted = r.counted;
    waiting = λ j e' h. elim (insert-some j e.index s.pending e e' h) [
      | inl (is, same) ↦ rw is (here ∙ same)
      | inr before ↦ r.waiting j e' before
    ];
    missing = insert-none m e.index s.pending e (omega arith) r.missing;
    covered = λ j lo hi. elim (eq-cases j e.index) [
      | inl is ↦ inl (λ gone. none-some (sym gone ∙ insert-same j e.index s.pending e is))
      | inr differs' ↦ elim (r.covered j lo hi) [
        | inl waits' ↦ inl (rw (insert-other j e.index s.pending e differs') waits')
        | inr (inl is) ↦ absurd (differs' (sym is))
        | inr (inr comes) ↦ inr comes
      ]
    ];
  }

  all_written : (s : Loop S) → Ready [] s → lookup s.next_idx s.pending ≡ none → s.next_idx ≡ m
  all_written s r over = elim (le-cases s.next_idx m r.below) [
    | inl lt ↦ elim (r.covered s.next_idx (omega arith) lt) [
      | inl waits' ↦ absurd (waits' over)
      | inr never ↦ absurd never
    ]
    | inr eq ↦ eq
  ]

  write_sorted-target :
      (a : List EncodedEntry) (s : Loop S)
      → All IsOurs a
      → Ready a s
      → lookup s.next_idx s.pending ≡ none
      → view (write_sorted S s a) ≡ target s.zw s.next_idx
  unfolding write_sorted receive
  write_sorted-target [] s h r over =
      let done = all_written s r over in
      let none_left : rest s.next_idx ≡ [] = rw done (drop-take m es) in
      unfold write_entries in rw none_left (λ i. some (s.zw, (r.counted ∙ done) i))
  write_sorted-target (e ∷ a) s (h, hs) r over =
      drain-target a (λ t. write_sorted-target a t hs) (length (insert e.index e s.pending))
        (waits s e) (omega arith) (Ready-insert a s e h r)

  -- The entries come in any order `a`, each with the index it has in `es`, and `m` is the first index
  -- that does not come: then exactly the entries below `m` are written, in the order of their indices,
  -- and they are counted.
  pub write_sorted-order :
      (a : List EncodedEntry) (zw : ZipWriter S)
      → All IsOurs a
      → ((j : ℕ) → j < m → Any (λ e. e.index ≡ j) a)
      → view (write_sorted S (start S zw) a) ≡ counted_m (write_entries S zw (take m es))
  unfolding lookup
  write_sorted-order a zw ours come =
      write_sorted-target a (start S zw) ours
        (record {
          below = omega arith;
          counted = refl;
          waiting = λ j e h. absurd (none-some h);
          missing = refl;
          covered = λ j lo hi. inr (come j hi);
        })
        refl
