-- ===== src/Linux/Uring/Keeps.antt =====
-- What a channel keeps through `read_batch` of src/io_uring_src.rs.
use tzip.Prelude.{
  ℕ, zero, suc, ◌==◌, leb, ltb, ◌&&◌, ◌≡◌, refl, Bool-cases, inl, inr, Option, none, some, List, [],
  ◌∷◌, length, get_elem?, take,
}
use tzip.Bytes.{Bytes}
use tzip.Channel.{Channel, then_loop, Ends, and_then-Ends, then_loop-Ends}
use tzip.Linux.Uring.{
  queue_depth, JobState, Completion, Batch, emitted, emit, submit_next, top_up, skip_empty,
  advanced, complete_read, complete_job, complete, read_found, read_batch, finish_job,
}

module _ (ch : Channel (ℕ × Bytes)) (file : ℕ → Bytes) (K : ch.State → Type 0)
    (keeps : (x : ℕ × Bytes) (s s' : ch.State) → K s → ch.send x s ≡ some s' → K s') where
  abbrev pub IsKept : Batch ch → Type 0
  IsKept b = K b.chan

  emitted-IsKept :
      (b : Batch ch) (x : ℕ × Bytes) (o : Option ch.State)
      → ch.send x b.chan ≡ o
      → IsKept b
      → Ends IsKept (emitted ch b o)
  emitted-IsKept b x none e h = h
  emitted-IsKept b x (some c) e h = keeps x b.chan c h e

  emit-IsKept : (i : ℕ) (bytes : Bytes) (b : Batch ch) → IsKept b → Ends IsKept (emit ch i bytes b)
  unfolding emit
  emit-IsKept i bytes b h = emitted-IsKept b (i, bytes) (ch.send (i, bytes) b.chan) refl h

  submit_next-IsKept :
      (o : Option JobState) (b : Batch ch) → IsKept b → Ends IsKept (submit_next ch o b)
  submit_next-IsKept none b h = h
  submit_next-IsKept (some st) b h = elim (Bool-cases (st.len == 0)) [
    | inl empty ↦ rw empty (emit-IsKept b.next [] (skip_empty ch b) h)
    | inr full ↦ rw full h
  ]

  top_up-IsKept : (n : ℕ) (b : Batch ch) → IsKept b → Ends IsKept (top_up ch n b)
  unfolding top_up
  top_up-IsKept zero b h = h
  top_up-IsKept (suc n) b h =
      elim (Bool-cases (ltb b.inflight queue_depth && ltb b.next (length b.states))) [
        | inr stop ↦ rw stop h
        | inl go ↦ rw go (
            and_then-Ends IsKept (submit_next ch (get_elem? b.states b.next) b) (top_up ch n)
              (submit_next-IsKept (get_elem? b.states b.next) b h) (top_up-IsKept n))
      ]

  complete_read-IsKept :
      (i : ℕ) (st : JobState) (got : Bytes) (b : Batch ch)
      → IsKept b
      → Ends IsKept (complete_read ch file i st got b)
  unfolding complete_read
  complete_read-IsKept i st got b h =
      let st' : JobState = advanced ch file st got in
      elim (Bool-cases (length got == 0)) [
        | inl over ↦ rw over (emit-IsKept i (take st.filled st.buf) (finish_job ch i st b) h)
        | inr more ↦ elim (Bool-cases (leb st'.len st'.filled)) [
          | inl ready ↦ rw (more, ready) (emit-IsKept i st'.buf (finish_job ch i st' b) h)
          | inr partial ↦ rw (more, partial) h
        ]
      ]

  complete_job-IsKept :
      (i n : ℕ) (o : Option JobState) (b : Batch ch)
      → IsKept b
      → Ends IsKept (complete_job ch file i n o b)
  complete_job-IsKept i n none b h = h
  complete_job-IsKept i n (some st) b h = elim (Bool-cases (length st.buf == 0)) [
    | inl idle ↦ rw idle h
    | inr busy ↦ rw busy (complete_read-IsKept i st (read_found ch file i n st) b h)
  ]

  complete-IsKept : (x : Completion) (b : Batch ch) → IsKept b → Ends IsKept (complete ch file x b)
  unfolding complete
  complete-IsKept (Completion.error i) b h = h
  complete-IsKept (Completion.read i n) b h = complete_job-IsKept i n (get_elem? b.states i) b h

  pub read_batch-IsKept :
      (rounds : List (List Completion)) (b : Batch ch)
      → IsKept b
      → Ends IsKept (read_batch ch file rounds b)
  unfolding read_batch
  read_batch-IsKept [] b h = h
  read_batch-IsKept (round ∷ rounds) b h = elim (Bool-cases (leb (length b.states) b.done)) [
    | inl over ↦ rw over h
    | inr more ↦ rw more (
        and_then-Ends IsKept (top_up ch (length b.states) b) _ (top_up-IsKept (length b.states) b h)
          (λ b' h'. elim (Bool-cases (b'.inflight == 0)) [
            | inl idle ↦ rw idle h'
            | inr busy ↦ rw busy (
                and_then-Ends IsKept (then_loop (complete ch file) round b')
                  (read_batch ch file rounds)
                  (then_loop-Ends IsKept (complete ch file) complete-IsKept round b' h')
                  (read_batch-IsKept rounds))
          ]))
  ]
