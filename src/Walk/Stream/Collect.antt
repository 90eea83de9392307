-- ===== src/Walk/Stream/Collect.antt =====
-- The files that `walk_stream` of src/walker.rs finds, as a list.
use mathlib.Core.Path.{subst}
use mathlib.Core.List.{Permᴰ}
use mathlib.Core.List.Permᴰ
use tzip.Prelude.{
  ℕ, ◌≡◌, refl, sym, ap, ◌∙◌, Bool, true, false, Bool-cases, inl, inr, max, Option, none, some,
  some-inj, >>=-eq-some, ◌>>=◌, List, [], ◌∷◌, ◌++◌, append_assoc, append-nil, if◌then◌else◌,
}
use tzip.Bytes.{Bytes}
use tzip.Walk.Item.{WorkItem}
use tzip.Walk.Glob.{is_excluded}
use tzip.Channel.{Channel, Outcome, and_then, then_loop}
use tzip.Walk.Stream.{
  Metadata, DirEntry, Disk, build_item, sent_item, send_meta, send_file, name_of, walk_entry,
  prefix_of, walk_path, walk_canonical, walk_root, walk_stream,
}

module _ {B : Type 0} where
  exchange : (u v w : List B) → Permᴰ (u ++ (v ++ w)) (v ++ (u ++ w))
  exchange u v w =
      subst (λ t. Permᴰ t (v ++ (u ++ w))) (append_assoc u v w)
        (subst (λ t. Permᴰ ((u ++ v) ++ w) t) (append_assoc v u w)
          (Permᴰ.append_right w (Permᴰ.append_comm u v)))

module _ {A B : Type 0} where
  pub collect : (A → Option (List B)) → List A → Option (List B)
  collect f [] = some []
  collect f (x ∷ xs) = f x >>= λ a. collect f xs >>= λ b. some (a ++ b)

  collect-cons :
      (f : A → Option (List B)) (x : A) (xs : List A) {l : List B}
      → collect f (x ∷ xs) ≡ some l
      → (a : List B) × (b : List B) × (f x ≡ some a) × (collect f xs ≡ some b) × (l ≡ a ++ b)
  unfolding collect
  collect-cons f x xs h =
      let (a, found, rest) = >>=-eq-some (f x) (λ a. collect f xs >>= λ b. some (a ++ b)) h in
      let (b, more, same) = >>=-eq-some (collect f xs) (λ b. some (a ++ b)) rest in
      (a, b, found, more, sym (some-inj same))

  consed :
      (f : A → Option (List B)) (x : A) (xs : List A) (a b : List B)
      → f x ≡ some a
      → collect f xs ≡ some b
      → collect f (x ∷ xs) ≡ some (a ++ b)
  unfolding collect
  consed f x xs a b h k =
      ap (λ o. o >>= λ p. collect f xs >>= λ q. some (p ++ q)) h
      ∙ ap (λ o. o >>= λ q. some (a ++ q)) k

  -- What is found in another order is the same, in another order.
  pub collect-Permᴰ :
      (f : A → Option (List B)) {xs ys : List A} (l : List B)
      → Permᴰ xs ys
      → collect f xs ≡ some l
      → (m : List B) × (collect f ys ≡ some m) × Permᴰ l m
  collect-Permᴰ f l Permᴰ.nil h = (l, h, Permᴰ.refl l)
  collect-Permᴰ f l (Permᴰ.cons {a} {b} {l₁ = xs} {l₂ = ys} e p) h =
      let (first, rest, found, more, same) = collect-cons f a xs h in
      let (rest', more', q) = collect-Permᴰ f rest p more in
      (
        first ++ rest',
        consed f b ys first rest' (ap f (sym e) ∙ found) more',
        subst (λ t. Permᴰ t (first ++ rest')) (sym same) (Permᴰ.append_left first q),
      )
  collect-Permᴰ f l (Permᴰ.swap {a} {b} {a'} {b'} {l = xs} e e') h =
      let (u, rest, found, more, same) = collect-cons f a (b ∷ xs) h in
      let (v, w, found', more', same') = collect-cons f b xs more in
      (
        v ++ (u ++ w),
        consed f a' (b' ∷ xs) v (u ++ w) (ap f (sym e') ∙ found')
            (consed f b' xs u w (ap f (sym e) ∙ found) more'),
        subst (λ t. Permᴰ t (v ++ (u ++ w))) (sym (same ∙ ap (λ t. u ++ t) same')) (exchange u v w),
      )
  collect-Permᴰ f l (Permᴰ.trans p p') h =
      let (m, found, q) = collect-Permᴰ f l p h in
      let (m', found', q') = collect-Permᴰ f m p' found in (m', found', Permᴰ.trans q q')

  -- The same at each element, up to the order.
  pub collect_each :
      (f g : A → Option (List B))
      → ((x : A) (l : List B) → f x ≡ some l → (m : List B) × (g x ≡ some m) × Permᴰ l m)
      → (xs : List A) (l : List B) → collect f xs ≡ some l
      → (m : List B) × (collect g xs ≡ some m) × Permᴰ l m
  unfolding collect
  collect_each f g each [] l h = (l, h, Permᴰ.refl l)
  collect_each f g each (x ∷ xs) l h =
      let (a, b, found, more, same) = collect-cons f x xs h in
      let (a', found', p) = each x a found in
      let (b', more', q) = collect_each f g each xs b more in
      (
        a' ++ b',
        consed g x xs a' b' found' more',
        subst (λ t. Permᴰ t (a' ++ b')) (sym same)
            (Permᴰ.trans (Permᴰ.append_right b p) (Permᴰ.append_left a' q)),
      )

module _ (ch : Channel WorkItem) where
  -- An outcome that sends what was found, or fails where nothing could be found.
  abbrev pub Answers : ch.State → Option (List WorkItem) → Outcome ch.State → Type 0
  Answers s none o = (t : ch.State) × (o ≡ Outcome.failed t)
  Answers s (some l) o =
      (t : ch.State) × (o ≡ Outcome.next t) × (ch.received t ≡ ch.received s ++ l)

  then-Answers :
      (s : ch.State) (f : ch.State → Outcome ch.State) (o : Outcome ch.State)
      (a : Option (List WorkItem)) (b : Option (List WorkItem))
      → Answers s a o
      → ((t : ch.State) → Answers t b (f t))
      → Answers s (a >>= λ l. b >>= λ m. some (l ++ m)) (and_then o f)
  then-Answers s f o none b (t, e) h = (t, ap (λ p. and_then p f) e)
  then-Answers s f o (some l) none (t, e, r) h =
      let (t', e') = h t in (t', ap (λ p. and_then p f) e ∙ e')
  then-Answers s f o (some l) (some m) (t, e, r) h =
      let (t', e', r') = h t in
      (
        t',
        ap (λ p. and_then p f) e ∙ e',
        r' ∙ ap (λ x. x ++ m) r ∙ append_assoc (ch.received s) l m,
      )

  pub then_loop-Answers :
      {A : Type 0} (f : A → ch.State → Outcome ch.State) (h : A → Option (List WorkItem))
      → ((x : A) (s : ch.State) → Answers s (h x) (f x s))
      → (xs : List A) (s : ch.State) → Answers s (collect h xs) (then_loop f xs s)
  unfolding collect
  then_loop-Answers f h each [] s = (s, refl, sym (append-nil (ch.received s)))
  then_loop-Answers f h each (x ∷ xs) s =
      then-Answers s (then_loop f xs) (f x s) (h x) (collect h xs) (each x s)
        (λ t. then_loop-Answers f h each xs t)

module _ (d : Disk) (exclude : List Bytes) (basename_only : Bool) where
  -- What there is to send for a file, an entry of a directory, and a root; `none` for an error.
  abbrev pub meta_found : Bytes → Bytes → Option Metadata → Option (List WorkItem)
  meta_found path name none = none
  meta_found path name (some meta) = some (build_item path name meta ∷ [])

  abbrev pub file_found : Bytes → Bytes → Option Metadata → Option (List WorkItem)
  file_found root base_name none = none
  file_found root base_name (some meta) =
      if is_excluded base_name exclude then some [] else some (build_item root base_name meta ∷ [])

  abbrev pub entry_found : Bytes → Bytes → Option DirEntry → Option (List WorkItem)
  entry_found root base_name none = none
  entry_found root base_name (some e) =
      if e.is_file
      then (if is_excluded (name_of d root base_name e.path) exclude
          then some []
          else meta_found e.path (name_of d root base_name e.path) e.metadata)
      else some []

  module _ (jwalk : ℕ → Bytes → List (Option DirEntry)) (walk_threads : ℕ) where
    abbrev pub path_found : Bytes → Bytes → Bool → Option (List WorkItem)
    path_found cli_root root true =
        file_found root (prefix_of d basename_only cli_root) (d.metadata root)
    path_found cli_root root false =
        collect (entry_found root (prefix_of d basename_only cli_root))
          (jwalk (max walk_threads 1) root)

    abbrev pub canonical_found : Bytes → Option Bytes → Option (List WorkItem)
    canonical_found cli_root none = none
    canonical_found cli_root (some root) = path_found cli_root root (d.is_file root)

    abbrev pub root_found : Bytes → Option (List WorkItem)
    root_found cli_root = canonical_found cli_root (d.canonicalize cli_root)

  module _ (ch : Channel WorkItem)
      (takes : (x : WorkItem) (s : ch.State) → (s' : ch.State) × (ch.send x s ≡ some s')) where
    send-Answers :
        (x : WorkItem) (s : ch.State)
        → Answers ch s (some (x ∷ [])) (sent_item d exclude basename_only ch s (ch.send x s))
    send-Answers x s =
        let (s', e) = takes x s in
        (s', ap (sent_item d exclude basename_only ch s) e, ch.send-received x s s' e)

    skip-Answers : (s : ch.State) → Answers ch s (some []) (Outcome.next s)
    skip-Answers s = (s, refl, sym (append-nil (ch.received s)))

    meta-Answers :
        (path name : Bytes) (meta : Option Metadata) (s : ch.State)
        → Answers ch s
            (meta_found path name meta)
            (send_meta d exclude basename_only ch path name meta s)
    meta-Answers path name none s = (s, refl)
    meta-Answers path name (some meta) s = send-Answers (build_item path name meta) s

    file-Answers :
        (root base_name : Bytes) (meta : Option Metadata) (s : ch.State)
        → Answers ch s
            (file_found root base_name meta)
            (send_file d exclude basename_only ch root base_name meta s)
    file-Answers root base_name none s = (s, refl)
    file-Answers root base_name (some meta) s = elim (Bool-cases (is_excluded base_name exclude)) [
      | inl left_out ↦ rw left_out (skip-Answers s)
      | inr kept ↦ rw kept (send-Answers (build_item root base_name meta) s)
    ]

    entry-Answers :
        (root base_name : Bytes) (e : Option DirEntry) (s : ch.State)
        → Answers ch s
            (entry_found root base_name e)
            (walk_entry d exclude basename_only ch root base_name e s)
    entry-Answers root base_name none s = (s, refl)
    entry-Answers root base_name (some e) s = elim (Bool-cases e.is_file) [
      | inr other ↦ rw other (skip-Answers s)
      | inl file ↦ elim (Bool-cases (is_excluded (name_of d root base_name e.path) exclude)) [
        | inl left_out ↦ rw (file, left_out) (skip-Answers s)
        | inr kept ↦
            rw (file, kept) (meta-Answers e.path (name_of d root base_name e.path) e.metadata s)
      ]
    ]

    module _ (jwalk : ℕ → Bytes → List (Option DirEntry)) (walk_threads : ℕ) where
      path-Answers :
          (cli_root root : Bytes) (is_file : Bool) (s : ch.State)
          → Answers ch s
              (path_found jwalk walk_threads cli_root root is_file)
              (walk_path d exclude basename_only ch jwalk walk_threads cli_root root is_file s)
      path-Answers cli_root root true s =
          file-Answers root (prefix_of d basename_only cli_root) (d.metadata root) s
      path-Answers cli_root root false s =
          then_loop-Answers ch _ _ (entry-Answers root (prefix_of d basename_only cli_root))
            (jwalk (max walk_threads 1) root) s

      canonical-Answers :
          (cli_root : Bytes) (o : Option Bytes) (s : ch.State)
          → Answers ch s
              (canonical_found jwalk walk_threads cli_root o)
              (walk_canonical d exclude basename_only ch jwalk walk_threads cli_root o s)
      canonical-Answers cli_root none s = (s, refl)
      canonical-Answers cli_root (some root) s = path-Answers cli_root root (d.is_file root) s

      -- On a channel that takes everything, the walk sends what there is to find, in this order.
      pub walk_stream-Answers :
          (roots : List Bytes) (s : ch.State)
          → Answers ch s
              (collect (root_found jwalk walk_threads) roots)
              (walk_stream d exclude basename_only ch jwalk walk_threads roots s)
      unfolding walk_stream walk_root
      walk_stream-Answers roots s =
          then_loop-Answers ch _ _ (λ r. canonical-Answers r (d.canonicalize r)) roots s
