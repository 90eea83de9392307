-- ===== src/Tests/Toy.antt =====
-- A channel that takes everything, and bounded channels as plain queues.
use tzip.Prelude.{
  ℕ, ◌≤◌, ◌<◌, ◌≡◌, arith, Bool, true, false, ltb, some, some-inj, List, [], ◌∷◌, ◌++◌, refl, sym,
  ap, length,
}
use tzip.Channel.{Channel}
use tzip.Pipeline.Bounded.{Bounded, Sent, Received}

abbrev pub open_channel : (A : Type 0) → Channel A
open_channel A = record {
  State = List A;
  send = λ x s. some (s ++ (x ∷ []));
  received = λ s. s;
  send-received = λ x s s' h. sym (some-inj h);
}

abbrev room : {A : Type 0} → Bool → A → List A → Sent A
room true x q = Sent.sent (q ++ (x ∷ []))
room false x q = Sent.full

abbrev send : (A : Type 0) → Bool → ℕ → A → List A → Sent A
send A true bound x q = Sent.disconnected
send A false bound x q = room (ltb (length q) bound) x q

abbrev recv : (A : Type 0) → Bool → List A → Received A
recv A gone (x ∷ q) = Received.received x q
recv A true [] = Received.disconnected
recv A false [] = Received.empty

pub fits :
    {A : Type 0} (n bound : ℕ) (x : A) (q : List A)
    → n < bound
    → room (ltb n bound) x q ≡ Sent.sent (q ++ (x ∷ []))
fits n bound x q h = let fewer : ltb n bound ≡ true = ground arith in ap (λ b. room b x q) fewer

pub waits :
    {A : Type 0} (n bound : ℕ) (x : A) (q : List A) → bound ≤ n → room (ltb n bound) x q ≡ Sent.full
waits n bound x q h = let enough : ltb n bound ≡ false = ground arith in ap (λ b. room b x q) enough

abbrev pub queues : Bounded
queues = record {
  send = send;
  recv = recv;
  send-disconnected = λ A bound x q. refl;
  send-sent = λ A bound x q h. fits (length q) bound x q h;
  send-full = λ A bound x q h. waits (length q) bound x q h;
  recv-received = λ A gone x q. refl;
  recv-disconnected = λ A. refl;
  recv-empty = λ A. refl;
}
