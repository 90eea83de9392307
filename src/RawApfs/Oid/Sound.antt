-- ===== src/RawApfs/Oid/Sound.antt =====
-- The ids that src/raw_apfs.rs finds by path against the tree on the volume.
use tzip.Prelude.{
  ℕ, ◌≡◌, refl, sym, ap, ◌∙◌, Bool-cases, inl, inr, ◌⊎◌, Option, none, some, List, [], ◌∷◌, All,
  Any,
}
use tzip.Bytes.{Bytes, bytes_eq, bytes_eq_sound, bytes_eq_refl}
use tzip.RawApfs.Volume.{Volume, EntryKind}
use tzip.RawApfs.Oid.{
  OidCache, cached_oid, split_parent_name, child_rel, cache_children, found_in, list_parent,
  resolve_after, resolve_oid, open_parent,
}

-- The volume shows a tree of objects.
pub record IsTree (vol : Volume) (oid_of : Bytes → Option ℕ) : Type 0 where
  pub opens : (p : Bytes) (o : ℕ) → vol.open_directory p ≡ some o → oid_of p ≡ some o
  pub lists :
      (p : Bytes) (o : ℕ) (es : List (Bytes × ℕ × EntryKind))
      → oid_of p ≡ some o
      → vol.list_directory_names_by_oid o ≡ some es
      → All (λ e. oid_of (child_rel p e.0) ≡ some e.1) es

module _ (oid_of : Bytes → Option ℕ) where
  abbrev pub IsSoundCache : OidCache → Type 0
  IsSoundCache c = All (λ (e : Bytes × ℕ). oid_of e.0 ≡ some e.1) c

  cached_oid_sound :
      (p : Bytes) (c : OidCache) (oid : ℕ)
      → IsSoundCache c
      → cached_oid p c ≡ some oid
      → oid_of p ≡ some oid
  unfolding cached_oid
  cached_oid_sound p [] oid h e = absurd cc
  cached_oid_sound p ((q, o) ∷ c) oid (s, h) e = elim (Bool-cases (bytes_eq q p)) [
    | inl hit ↦ ap oid_of (sym (bytes_eq_sound q p hit)) ∙ (s ∙ (rw hit at e))
    | inr miss ↦ cached_oid_sound p c oid h (rw miss at e)
  ]

  cache_children_sound :
      (parent : Bytes) (es : List (Bytes × ℕ × EntryKind)) (c : OidCache)
      → All (λ e. oid_of (child_rel parent e.0) ≡ some e.1) es
      → IsSoundCache c
      → IsSoundCache (cache_children parent es c)
  unfolding cache_children
  cache_children_sound parent [] c h s = s
  cache_children_sound parent ((name, oid, kind) ∷ es) c (p, h) s =
      cache_children_sound parent es ((child_rel parent name, oid) ∷ c) h (p, s)

  -- The cache stays sound, and an id that is found is the tree's.
  abbrev IsAnswer : Bytes → OidCache × Option ℕ → Type 0
  IsAnswer rel (c, o) = IsSoundCache c × ((oid : ℕ) → o ≡ some oid → oid_of rel ≡ some oid)

  module _ (vol : Volume) (tree : IsTree vol oid_of) where
    found_in_sound :
        (rel parent : Bytes) (o : ℕ) (c : OidCache) (listed : Option (List (Bytes × ℕ × EntryKind)))
        → vol.list_directory_names_by_oid o ≡ listed
        → oid_of parent ≡ some o
        → IsSoundCache c
        → IsAnswer rel (found_in vol rel parent listed c)
    found_in_sound rel parent o c none e h s = (s, λ oid g. absurd cc)
    found_in_sound rel parent o c (some es) e h s =
        let s' = cache_children_sound parent es c (tree.lists parent o es h e) s in
        (s', λ oid g. cached_oid_sound rel (cache_children parent es c) oid s' g)

    open_parent_sound :
        (parent : Bytes) (cached opened : Option ℕ) (c : OidCache)
        → cached_oid parent c ≡ cached
        → vol.open_directory parent ≡ opened
        → IsSoundCache c
        → IsAnswer parent (open_parent vol parent cached opened c)
    open_parent_sound parent (some oid) opened c e e' s =
        (s, λ o g. cached_oid_sound parent c o s (e ∙ g))
    open_parent_sound parent none (some oid) c e e' s =
        let p = tree.opens parent oid e' in ((p, s), λ o g. p ∙ g)
    open_parent_sound parent none none c e e' s = (s, λ o g. absurd cc)

    list_parent_sound :
        (rel parent : Bytes) (a : OidCache × Option ℕ)
        → IsAnswer parent a
        → IsAnswer rel (list_parent vol rel parent a)
    list_parent_sound rel parent (c, none) (s, h) = (s, λ oid g. absurd cc)
    list_parent_sound rel parent (c, some o) (s, h) =
        found_in_sound rel parent o c (vol.list_directory_names_by_oid o) refl (h o refl) s

    resolve_after_sound :
        (rel : Bytes) (direct : Option ℕ) (c : OidCache)
        → cached_oid rel c ≡ direct
        → IsSoundCache c
        → IsAnswer rel (resolve_after vol rel direct c)
    resolve_after_sound rel (some oid) c e s = (s, λ o g. cached_oid_sound rel c o s (e ∙ g))
    resolve_after_sound rel none c e s =
        let parent = (split_parent_name rel).0 in
        list_parent_sound rel parent
          (open_parent vol parent (cached_oid parent c) (vol.open_directory parent) c)
          (open_parent_sound parent (cached_oid parent c) (vol.open_directory parent) c refl refl s)

    -- Of a volume that shows a tree: what `resolve_oid` adds to a sound cache leaves it sound, and the id
    -- that it gives for a path is the tree's.
    pub resolve_oid_sound :
        (rel : Bytes) (c : OidCache)
        → IsSoundCache c
        → IsSoundCache (resolve_oid vol rel c).0
          × ((oid : ℕ) → (resolve_oid vol rel c).1 ≡ some oid → oid_of rel ≡ some oid)
    unfolding resolve_oid
    resolve_oid_sound rel c s = resolve_after_sound rel (cached_oid rel c) c refl s

    -- Without sibling misses: what is listed under the parent is found.
    listed_hit :
        (rel parent : Bytes) (es : List (Bytes × ℕ × EntryKind)) (c : OidCache)
        → Any (λ e. child_rel parent e.0 ≡ rel) es ⊎ ((oid : ℕ) × (cached_oid rel c ≡ some oid))
        → (oid : ℕ) × (cached_oid rel (cache_children parent es c) ≡ some oid)
    unfolding cache_children cached_oid
    listed_hit rel parent [] c (inl h) = absurd h
    listed_hit rel parent [] c (inr h) = h
    listed_hit rel parent ((name, oid, kind) ∷ es) c h =
        listed_hit rel parent es ((child_rel parent name, oid) ∷ c)
          (elim (Bool-cases (bytes_eq (child_rel parent name) rel)) [
            | inl hit ↦ inr (oid, rw hit refl)
            | inr miss ↦ elim h [
              | inl (inl here) ↦ absurd (let t = bytes_eq_refl rel in cc)
              | inl (inr there) ↦ inl there
              | inr (o, g) ↦ inr (o, rw miss g)
            ]
          ])

    list_parent_hit :
        (rel parent : Bytes) (a : OidCache × Option ℕ) (o : ℕ) (es : List (Bytes × ℕ × EntryKind))
        → a.1 ≡ some o
        → vol.list_directory_names_by_oid o ≡ some es
        → Any (λ e. child_rel parent e.0 ≡ rel) es
        → (oid : ℕ) × ((list_parent vol rel parent a).1 ≡ some oid)
    list_parent_hit rel parent (c, none) o es e l h = absurd cc
    list_parent_hit rel parent (c, some o') o es e l h =
        let l' : vol.list_directory_names_by_oid o' ≡ some es = cc in
        rw l' (listed_hit rel parent es c (inl h))

    open_parent_id :
        (parent : Bytes) (cached : Option ℕ) (c : OidCache) (o : ℕ)
        → cached_oid parent c ≡ cached
        → IsSoundCache c
        → oid_of parent ≡ some o
        → (open_parent vol parent cached (some o) c).1 ≡ some o
    open_parent_id parent none c o e s h = refl
    open_parent_id parent (some oid) c o e s h = let t = cached_oid_sound parent c oid s e in cc

    resolve_after_hit :
        (rel : Bytes) (direct : Option ℕ) (c : OidCache) (o : ℕ) (es : List (Bytes × ℕ × EntryKind))
        → IsSoundCache c
        → vol.open_directory (split_parent_name rel).0 ≡ some o
        → vol.list_directory_names_by_oid o ≡ some es
        → Any (λ e. child_rel (split_parent_name rel).0 e.0 ≡ rel) es
        → (oid : ℕ) × ((resolve_after vol rel direct c).1 ≡ some oid)
    resolve_after_hit rel (some oid) c o es s e l h = (oid, refl)
    resolve_after_hit rel none c o es s e l h =
        let parent = (split_parent_name rel).0 in
        let id = open_parent_id parent (cached_oid parent c) c o refl s (tree.opens parent o e) in
        rw e (
          list_parent_hit rel parent (open_parent vol parent (cached_oid parent c) (some o) c) o es
            id l h)

    -- A path whose parent directory can be opened and lists its name gets the tree's id, whatever the
    -- (sound) cache holds: the lookup does not fail.
    pub resolve_oid-finds :
        (rel : Bytes) (c : OidCache) (o : ℕ) (es : List (Bytes × ℕ × EntryKind))
        → IsSoundCache c
        → vol.open_directory (split_parent_name rel).0 ≡ some o
        → vol.list_directory_names_by_oid o ≡ some es
        → Any (λ e. child_rel (split_parent_name rel).0 e.0 ≡ rel) es
        → (oid : ℕ) × ((resolve_oid vol rel c).1 ≡ some oid) × (oid_of rel ≡ some oid)
    unfolding resolve_oid
    resolve_oid-finds rel c o es s e l h =
        let (oid, got) = resolve_after_hit rel (cached_oid rel c) c o es s e l h in
        (oid, got, (resolve_after_sound rel (cached_oid rel c) c refl s).1 oid got)
