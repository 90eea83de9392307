-- ===== src/RawApfs/Cache/Fifo.antt =====
-- `BlockCacheInner` of src/raw_apfs.rs against a queue of blocks.
use tzip.Prelude.{
  ℕ, zero, suc, ◌-◌, ◌≤◌, ◌≡◌, ◌≢◌, inl, inr, refl, sym, ap, arith, ◌==◌, ltb, not, ◌||◌, true,
  false, Bool-cases, Option, none, some, List, [], ◌∷◌, ◌++◌, if◌then◌else◌, length, drop, All,
  length-append, length-drop,
}
use tzip.Prelude.Assoc.{Map, lookup, remove, insert}
use tzip.Bytes.{Bytes}
use tzip.RawApfs.Cache.{BlockCacheInner, is_some, evict, put}

abbrev keys : Map Bytes → List ℕ
keys [] = []
keys ((k, d) ∷ m) = k ∷ keys m

abbrev Absent : ℕ → List ℕ → Type 0
Absent k = All (λ j. j ≢ k)

abbrev Nodup : List ℕ → Type 0
Nodup [] = Unit
Nodup (k ∷ ks) = Absent k ks × Nodup ks

remove-Absent : (k : ℕ) (m : Map Bytes) → Absent k (keys m) → remove k m ≡ m
unfolding remove
remove-Absent k [] h = refl
remove-Absent k ((j, d) ∷ m) (differs, h) = ground (arith, remove-Absent k m h)

lookup-none-Absent : (k : ℕ) (m : Map Bytes) → lookup k m ≡ none → Absent k (keys m)
unfolding lookup
lookup-none-Absent k [] h = tt
lookup-none-Absent k ((j, d) ∷ m) h = elim (Bool-cases (j == k)) [
  | inl same ↦ absurd (ground arith)
  | inr differs ↦ (ground arith, lookup-none-Absent k m (rw differs at h))
]

drop-Absent : (k n : ℕ) (ks : List ℕ) → Absent k ks → Absent k (drop n ks)
drop-Absent k zero ks h = h
drop-Absent k (suc n) [] h = h
drop-Absent k (suc n) (j ∷ ks) (_, h) = drop-Absent k n ks h

drop-Nodup : (n : ℕ) (ks : List ℕ) → Nodup ks → Nodup (drop n ks)
drop-Nodup zero ks h = h
drop-Nodup (suc n) [] h = h
drop-Nodup (suc n) (k ∷ ks) (_, h) = drop-Nodup n ks h

keys-drop : (n : ℕ) (m : Map Bytes) → keys (drop n m) ≡ drop n (keys m)
keys-drop zero m = refl
keys-drop (suc n) [] = refl
keys-drop (suc n) ((k, d) ∷ m) = keys-drop n m

keys-push : (k : ℕ) (d : Bytes) (m : Map Bytes) → keys (m ++ ((k, d) ∷ [])) ≡ keys m ++ (k ∷ [])
keys-push k d [] = refl
keys-push k d ((j, e) ∷ m) = ap (λ (t : List ℕ). j ∷ t) (keys-push k d m)

length-keys : (m : Map Bytes) → length (keys m) ≡ length m
length-keys [] = refl
length-keys ((k, d) ∷ m) = ap suc (length-keys m)

push-Absent : (j k : ℕ) (ks : List ℕ) → j ≢ k → Absent j ks → Absent j (ks ++ (k ∷ []))
push-Absent j k [] d h = ((λ e. d (sym e)), h)
push-Absent j k (i ∷ ks) d (differs, h) = (differs, push-Absent j k ks d h)

push-Nodup : (k : ℕ) (ks : List ℕ) → Absent k ks → Nodup ks → Nodup (ks ++ (k ∷ []))
push-Nodup k [] h n = (tt, tt)
push-Nodup k (j ∷ ks) (differs, h) (absent, n) =
    (push-Absent j k ks differs absent, push-Nodup k ks h n)

-- Room is made by dropping the oldest blocks.
evict-drop :
    (capacity : ℕ) (m : Map Bytes)
    → 1 ≤ capacity
    → Nodup (keys m)
    → evict capacity (keys m) m
      ≡ (drop (suc (length m) - capacity) (keys m), drop (suc (length m) - capacity) m)
unfolding evict remove
evict-drop capacity [] h n = let none_out : 1 - capacity ≡ 0 = omega arith in rw none_out refl
evict-drop capacity ((k, d) ∷ m) h (absent, n) =
    let gone : remove k ((k, d) ∷ m) ≡ m = ground (arith, remove-Absent k m absent) in
    elim (Bool-cases (ltb (length (k ∷ keys m)) capacity)) [
      | inl room ↦
          let none_out : suc (suc (length m)) - capacity ≡ 0 = ground (arith, length-keys m) in
          rw (room, none_out) refl
      | inr full ↦
          let more : suc (suc (length m)) - capacity ≡ suc (suc (length m) - capacity) =
            ground (arith, length-keys m) in
          rw (full, more, gone) (evict-drop capacity m h n)
    ]

-- The keys in the order of their insertion, each once, and no more than the capacity.
unfoldable pub IsValid : BlockCacheInner → Type 0
IsValid c = (c.order ≡ keys c.map) × Nodup (keys c.map) × (length c.map ≤ c.capacity)

-- The queue after `put`: a block of the wrong size and a block that is there are left out, and a new
-- one drives out the oldest where the queue is full.
unfoldable pub queued : BlockCacheInner → ℕ → Bytes → Map Bytes
queued c off bytes =
    if not (length bytes == c.block) || is_some (lookup off c.map)
    then c.map
    else drop (suc (length c.map) - c.capacity) c.map ++ ((off, bytes) ∷ [])

is_some-false : (o : Option Bytes) → is_some o ≡ false → o ≡ none
is_some-false none h = refl
is_some-false (some d) h = absurd (ground arith)

abbrev pushed : BlockCacheInner → ℕ → Bytes → BlockCacheInner
pushed c off bytes = record {
  map = drop (suc (length c.map) - c.capacity) c.map ++ ((off, bytes) ∷ []);
  order = drop (suc (length c.map) - c.capacity) c.order ++ (off ∷ []);
  capacity = c.capacity;
  block = c.block;
}

put_new :
    (c : BlockCacheInner) (off : ℕ) (bytes : Bytes)
    → IsValid c
    → 1 ≤ c.capacity
    → length bytes ≡ c.block
    → lookup off c.map ≡ none
    → put c off bytes ≡ pushed c off bytes
unfolding put IsValid insert
put_new c off bytes (ordered, once, _) h size absent =
    let n = suc (length c.map) - c.capacity in
    let whole : (length bytes == c.block) ≡ true = ground arith in
    let fresh = drop-Absent off n (keys c.map) (lookup-none-Absent off c.map absent) in
    let kept : remove off (drop n c.map) ≡ drop n c.map =
      remove-Absent off (drop n c.map) (rw (keys-drop n c.map) fresh) in
    rw (whole, absent, ordered, evict-drop c.capacity c.map h once, kept) refl

put_other :
    (c : BlockCacheInner) (off : ℕ) (bytes : Bytes)
    → (not (length bytes == c.block) || is_some (lookup off c.map)) ≡ true
    → put c off bytes ≡ c
unfolding put
put_other c off bytes h = elim (Bool-cases (length bytes == c.block)) [
  | inr wrong ↦ rw wrong refl
  | inl right ↦
      let there : is_some (lookup off c.map) ≡ true = rw right at h in rw (right, there) refl
]

pushed-IsValid :
    (c : BlockCacheInner) (off : ℕ) (bytes : Bytes)
    → IsValid c
    → 1 ≤ c.capacity
    → lookup off c.map ≡ none
    → IsValid (pushed c off bytes)
unfolding IsValid
pushed-IsValid c off bytes (ordered, once, bound) h absent =
    let n = suc (length c.map) - c.capacity in
    let kept = drop n c.map in
    let kept_keys = keys-drop n c.map in
    let fresh : Absent off (keys kept) =
      rw kept_keys (drop-Absent off n (keys c.map) (lookup-none-Absent off c.map absent)) in
    (
      rw (keys-push off bytes kept, kept_keys, ordered) refl,
      rw (keys-push off bytes kept)
          (push-Nodup off (keys kept) fresh (rw kept_keys (drop-Nodup n (keys c.map) once))),
      omega (arith, length-append kept ((off, bytes) ∷ []), length-drop n c.map),
    )

-- `put` keeps the cache valid and within its capacity, and works as a queue that drops the oldest block.
pub put-queued :
    (c : BlockCacheInner) (off : ℕ) (bytes : Bytes)
    → IsValid c
    → 1 ≤ c.capacity
    → IsValid (put c off bytes) × ((put c off bytes).map ≡ queued c off bytes)
unfolding queued
put-queued c off bytes v h = elim (Bool-cases (length bytes == c.block)) [
  | inr wrong ↦ rw (put_other c off bytes (rw wrong refl), wrong) (v, refl)
  | inl right ↦ elim (Bool-cases (is_some (lookup off c.map))) [
    | inl there ↦ rw (put_other c off bytes (rw (right, there) refl), right, there) (v, refl)
    | inr absent ↦
        let missing = is_some-false (lookup off c.map) absent in
        rw (put_new c off bytes v h (ground arith) missing, right, absent)
          (pushed-IsValid c off bytes v h missing, refl)
  ]
]

pub put-capacity :
    (c : BlockCacheInner) (off : ℕ) (bytes : Bytes) → (put c off bytes).capacity ≡ c.capacity
unfolding put
put-capacity c off bytes = elim (Bool-cases (length bytes == c.block)) [
  | inr wrong ↦ rw wrong refl
  | inl right ↦ elim (Bool-cases (is_some (lookup off c.map))) [
    | inl there ↦ rw (right, there) refl
    | inr absent ↦ rw (right, absent) refl
  ]
]
