-- ===== src/Channel.antt =====
-- `RawItem` of src/pipeline.rs, the channel that takes the items from the readers to the compressors
-- (`crossbeam_channel::Sender`, a parameter), and how a reader's part ends. The buffer of a
-- `RawItem` (`ReadBuf` of src/platform.rs) is its bytes, mapped or owned.
use tzip.Prelude.{
  ℕ, Option, some, List, [], ◌∷◌, ◌++◌, ◌≡◌, refl, sym, ap, ◌∙◌, ◌⊎◌, inl, inr, All, Any, ◌≢◌,
}
use tzip.Bytes.{Bytes}
use tzip.Walk.Item.{WorkItem}

pub record RawItem : Type 0 where
  pub index : ℕ
  pub item : WorkItem
  pub bytes : Bytes

-- `send` fails when every receiver is gone; what it takes goes behind what was taken before.
pub record Channel (A : Type 0) : Type 1 where
  pub State : Type 0
  pub send : A → State → Option State
  pub received : State → List A
  pub send-received :
      (x : A) (s s' : State) → send x s ≡ some s' → received s' ≡ received s ++ (x ∷ [])

-- `Err(_)`, a panic, `Ok(true)` (the channel is closed), and `Ok(false)` or the next step of the loop.
pub data Outcome (S : Type 0) : Type 0 where
  failed : S → Outcome S
  panicked : Outcome S
  closed : S → Outcome S
  next : S → Outcome S

abbrev pub and_then : {S : Type 0} → Outcome S → (S → Outcome S) → Outcome S
and_then (Outcome.failed s) f = Outcome.failed s
and_then Outcome.panicked f = Outcome.panicked
and_then (Outcome.closed s) f = Outcome.closed s
and_then (Outcome.next s) f = f s

abbrev pub then_loop : {S A : Type 0} → (A → S → Outcome S) → List A → S → Outcome S
then_loop f [] s = Outcome.next s
then_loop f (x ∷ xs) s = and_then (f x s) (then_loop f xs)

pub and_then_assoc :
    {S : Type 0} (o : Outcome S) (f g : S → Outcome S)
    → and_then (and_then o f) g ≡ and_then o (λ s. and_then (f s) g)
and_then_assoc (Outcome.failed s) f g = refl
and_then_assoc Outcome.panicked f g = refl
and_then_assoc (Outcome.closed s) f g = refl
and_then_assoc (Outcome.next s) f g = refl

-- A loop over two lists, one behind the other.
pub then_loop-append :
    {S A : Type 0} (f : A → S → Outcome S) (xs ys : List A) (s : S)
    → then_loop f (xs ++ ys) s ≡ and_then (then_loop f xs s) (then_loop f ys)
then_loop-append f [] ys s = refl
then_loop-append {S} f (x ∷ xs) ys s =
    ap (λ (k : S → Outcome S). and_then (f x s) k) (λ i s'. then_loop-append f xs ys s' i)
    ∙ sym (and_then_assoc (f x s) (then_loop f xs) (then_loop f ys))

-- What a chain that goes on went through.
pub and_then-eq-next :
    {S : Type 0} (o : Outcome S) (f : S → Outcome S) {t : S}
    → and_then o f ≡ Outcome.next t
    → (s : S) × (o ≡ Outcome.next s) × (f s ≡ Outcome.next t)
and_then-eq-next (Outcome.failed s) f h = absurd cc
and_then-eq-next Outcome.panicked f h = absurd cc
and_then-eq-next (Outcome.closed s) f h = absurd cc
and_then-eq-next (Outcome.next s) f h = (s, refl, h)

pub next-inj : {S : Type 0} {s t : S} → Outcome.next s ≡ Outcome.next t → s ≡ t
next-inj h = cc

-- A loop whose every step goes on goes on.
pub then_loop_total :
    {S A : Type 0} (f : A → S → Outcome S) (P : A → Type 0)
    → ((x : A) (s : S) → P x → (s' : S) × (f x s ≡ Outcome.next s'))
    → (xs : List A) (s : S) → All P xs
    → (s' : S) × (then_loop f xs s ≡ Outcome.next s')
then_loop_total f P each [] s h = (s, refl)
then_loop_total f P each (x ∷ xs) s (p, h) =
    let (t, e) = each x s p in rw e (then_loop_total f P each xs t h)

and_then_failed :
    {S : Type 0} (o : Outcome S) (f : S → Outcome S) {t : S}
    → and_then o f ≡ Outcome.failed t
    → (o ≡ Outcome.failed t) ⊎ ((s : S) × (f s ≡ Outcome.failed t))
and_then_failed (Outcome.failed s) f h = inl h
and_then_failed Outcome.panicked f h = absurd cc
and_then_failed (Outcome.closed s) f h = absurd cc
and_then_failed (Outcome.next s) f h = inr (s, h)

-- A loop that fails fails at one of its steps.
pub then_loop_failed :
    {S A : Type 0} (f : A → S → Outcome S) (P Q : A → Type 0)
    → ((x : A) (s t : S) → P x → f x s ≡ Outcome.failed t → Q x)
    → (xs : List A) (s t : S) → All P xs
    → then_loop f xs s ≡ Outcome.failed t
    → Any Q xs
then_loop_failed f P Q each [] s t h e = absurd cc
then_loop_failed f P Q each (x ∷ xs) s t (p, h) e =
    elim (and_then_failed (f x s) (then_loop f xs) e) [
      | inl here ↦ inl (each x s t p here)
      | inr (s', later) ↦ inr (then_loop_failed f P Q each xs s' t h later)
    ]

-- Without a panic, and with `P` where it goes on.
abbrev pub Always : {S : Type 0} → (S → Type 0) → Outcome S → Type 0
Always P (Outcome.failed s) = Unit
Always P Outcome.panicked = ⊥
Always P (Outcome.closed s) = Unit
Always P (Outcome.next s) = P s

pub and_then-Always :
    {S : Type 0} (P Q : S → Type 0) (o : Outcome S) (f : S → Outcome S)
    → Always P o
    → ((s : S) → P s → Always Q (f s))
    → Always Q (and_then o f)
and_then-Always P Q (Outcome.failed s) f h k = tt
and_then-Always P Q Outcome.panicked f h k = absurd h
and_then-Always P Q (Outcome.closed s) f h k = tt
and_then-Always P Q (Outcome.next s) f h k = k s h

pub Always-panicked :
    {S : Type 0} (P : S → Type 0) (o : Outcome S) → Always P o → o ≢ Outcome.panicked
Always-panicked P (Outcome.failed s) h e = absurd cc
Always-panicked P Outcome.panicked h e = absurd h
Always-panicked P (Outcome.closed s) h e = absurd cc
Always-panicked P (Outcome.next s) h e = absurd cc

pub Always-both :
    {S : Type 0} (P Q : S → Type 0) (o : Outcome S)
    → Always P o
    → Always Q o
    → Always (λ s. P s × Q s) o
Always-both P Q (Outcome.failed s) h k = tt
Always-both P Q Outcome.panicked h k = h
Always-both P Q (Outcome.closed s) h k = tt
Always-both P Q (Outcome.next s) h k = (h, k)

pub Always-weaken :
    {S : Type 0} (P Q : S → Type 0)
    → ((s : S) → P s → Q s)
    → (o : Outcome S) → Always P o
    → Always Q o
Always-weaken P Q f (Outcome.failed s) h = tt
Always-weaken P Q f Outcome.panicked h = h
Always-weaken P Q f (Outcome.closed s) h = tt
Always-weaken P Q f (Outcome.next s) h = f s h

-- Without a panic, with `Q` where it goes on, and with `P` where it ends.
abbrev pub Through : {S : Type 0} → (S → Type 0) → (S → Type 0) → Outcome S → Type 0
Through P Q (Outcome.failed s) = P s
Through P Q Outcome.panicked = ⊥
Through P Q (Outcome.closed s) = P s
Through P Q (Outcome.next s) = Q s

pub and_then-Through :
    {S : Type 0} (P Q R : S → Type 0) (o : Outcome S) (f : S → Outcome S)
    → Through P Q o
    → ((s : S) → Q s → Through P R (f s))
    → Through P R (and_then o f)
and_then-Through P Q R (Outcome.failed s) f h k = h
and_then-Through P Q R Outcome.panicked f h k = absurd h
and_then-Through P Q R (Outcome.closed s) f h k = h
and_then-Through P Q R (Outcome.next s) f h k = k s h

pub Through-both :
    {S : Type 0} (P Q R : S → Type 0) (o : Outcome S)
    → Always Q o
    → Through P R o
    → Through P (λ s. Q s × R s) o
Through-both P Q R (Outcome.failed s) h k = k
Through-both P Q R Outcome.panicked h k = h
Through-both P Q R (Outcome.closed s) h k = k
Through-both P Q R (Outcome.next s) h k = (h, k)

pub Through-weaken :
    {S : Type 0} (P Q P' Q' : S → Type 0)
    → ((s : S) → P s → P' s)
    → ((s : S) → Q s → Q' s)
    → (o : Outcome S) → Through P Q o
    → Through P' Q' o
Through-weaken P Q P' Q' f g (Outcome.failed s) h = f s h
Through-weaken P Q P' Q' f g Outcome.panicked h = h
Through-weaken P Q P' Q' f g (Outcome.closed s) h = f s h
Through-weaken P Q P' Q' f g (Outcome.next s) h = g s h

-- `P` however it ends, but for a panic.
abbrev pub Ends : {S : Type 0} → (S → Type 0) → Outcome S → Type 0
Ends P (Outcome.failed s) = P s
Ends P Outcome.panicked = Unit
Ends P (Outcome.closed s) = P s
Ends P (Outcome.next s) = P s

pub and_then-Ends :
    {S : Type 0} (P : S → Type 0) (o : Outcome S) (f : S → Outcome S)
    → Ends P o
    → ((s : S) → P s → Ends P (f s))
    → Ends P (and_then o f)
and_then-Ends P (Outcome.failed s) f h k = h
and_then-Ends P Outcome.panicked f h k = h
and_then-Ends P (Outcome.closed s) f h k = h
and_then-Ends P (Outcome.next s) f h k = k s h

pub then_loop-Ends :
    {S A : Type 0} (P : S → Type 0) (f : A → S → Outcome S)
    → ((x : A) (s : S) → P s → Ends P (f x s))
    → (xs : List A) (s : S) → P s
    → Ends P (then_loop f xs s)
then_loop-Ends P f each [] s h = h
then_loop-Ends P f each (x ∷ xs) s h =
    and_then-Ends P (f x s) (then_loop f xs) (each x s h) (λ t k. then_loop-Ends P f each xs t k)

pub Ends-both :
    {S : Type 0} (P Q : S → Type 0) (o : Outcome S) → Ends P o → Ends Q o → Ends (λ s. P s × Q s) o
Ends-both P Q (Outcome.failed s) h k = (h, k)
Ends-both P Q Outcome.panicked h k = tt
Ends-both P Q (Outcome.closed s) h k = (h, k)
Ends-both P Q (Outcome.next s) h k = (h, k)
