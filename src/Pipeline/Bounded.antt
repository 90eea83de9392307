-- ===== src/Pipeline/Bounded.antt =====
-- The bounded channels of the crossbeam crate that src/pipeline.rs connects its threads with, as what
-- the code asks of them: one call of `send` or of `recv` on the queue of a channel.
use tzip.Prelude.{ℕ, ◌≤◌, ◌<◌, ◌≡◌, Bool, true, false, List, [], ◌∷◌, ◌++◌, length}

-- What `send` and `recv` of a bounded channel find.
pub data Sent (A : Type 0) : Type 0 where
  sent : List A → Sent A
  disconnected : Sent A
  full : Sent A

pub data Received (A : Type 0) : Type 0 where
  received : A → List A → Received A
  disconnected : Received A
  empty : Received A

-- `crossbeam_channel::bounded`, on the queue of a channel. `gone`: every receiver, or every sender, is
-- dropped; what is queued is received first.
pub record Bounded : Type 1 where
  pub send : (A : Type 0) → Bool → ℕ → A → List A → Sent A
  pub recv : (A : Type 0) → Bool → List A → Received A
  pub send-disconnected :
      (A : Type 0) (bound : ℕ) (x : A) (q : List A) → send A true bound x q ≡ Sent.disconnected
  pub send-sent :
      (A : Type 0) (bound : ℕ) (x : A) (q : List A)
      → length q < bound
      → send A false bound x q ≡ Sent.sent (q ++ (x ∷ []))
  pub send-full :
      (A : Type 0) (bound : ℕ) (x : A) (q : List A)
      → bound ≤ length q
      → send A false bound x q ≡ Sent.full
  pub recv-received :
      (A : Type 0) (gone : Bool) (x : A) (q : List A) → recv A gone (x ∷ q) ≡ Received.received x q
  pub recv-disconnected : (A : Type 0) → recv A true [] ≡ Received.disconnected
  pub recv-empty : (A : Type 0) → recv A false [] ≡ Received.empty
