-- ===== src/Linux/Uring/Filled.antt =====
-- The buffers of `read_batch` in src/io_uring_src.rs against the files, where reads are handed to the
-- kernel.
use tzip.Prelude.{
  ℕ, zero, suc, ◌+◌, ◌≤◌, ◌<◌, ◌==◌, ◌≡◌, refl, ap, ◌∙◌, arith, Bool-cases, ltb, ◌&&◌, inl, inr,
  ◌⊎◌, Option, some, none, List, [], ◌∷◌, ◌++◌, All, All-append, append_assoc, length, get_elem?,
  take, replicate, length-replicate,
}
use tzip.Bytes.{Bytes}
use tzip.Channel.{Channel, Ends, and_then-Ends}
use tzip.RawApfs.Bulk.Reads.{set_at}
use tzip.RawApfs.Bulk.Reads.Fitting.{each-set_at}
use tzip.Linux.Uring.{queue_depth, JobState, Batch, emitted, emit, skip_empty, submit_next, top_up}

module _ (ch : Channel (ℕ × Bytes)) (file : ℕ → Bytes) (lens : List ℕ) (c₀ : ch.State) where
  -- A job that is not in flight, or the front of its file in a buffer that has room for more.
  abbrev pub IsJob : ℕ → JobState → Type 0
  IsJob i st =
      (get_elem? lens i ≡ some st.len)
      × ((length st.buf ≡ 0)
          ⊎ ((length st.buf ≡ st.len)
              × (st.filled < st.len)
              × (st.filled ≤ length (file i))
              × (take st.filled st.buf ≡ take st.filled (file i))))

  -- The front of the file, up to the length that was asked for.
  abbrev pub IsFront : ℕ × Bytes → Type 0
  IsFront (i, bytes) = (len : ℕ) × (get_elem? lens i ≡ some len) × (bytes ≡ take len (file i))

  pub record IsSound (b : Batch ch) : Type 0 where
    pub jobs : (i : ℕ) (st : JobState) → get_elem? b.states i ≡ some st → IsJob i st
    pub fresh :
        (i : ℕ) (st : JobState)
        → get_elem? b.states i ≡ some st
        → b.next ≤ i
        → (st.filled ≡ 0) × (length st.buf ≡ 0)
    pub depth : b.inflight ≤ queue_depth
    pub out : List (ℕ × Bytes)
    pub received : ch.received b.chan ≡ ch.received c₀ ++ out
    pub right : All IsFront out

  emitted-IsSound :
      (b : Batch ch) (x : ℕ × Bytes) (o : Option ch.State)
      → ch.send x b.chan ≡ o
      → IsFront x
      → IsSound b
      → Ends IsSound (emitted ch b o)
  emitted-IsSound b x none e f h = h
  emitted-IsSound b x (some c) e f h = record {
    jobs = h.jobs;
    fresh = h.fresh;
    depth = h.depth;
    out = h.out ++ (x ∷ []);
    received =
        ch.send-received x b.chan c e
        ∙ (ap (λ (l : List (ℕ × Bytes)). l ++ (x ∷ [])) h.received
            ∙ append_assoc (ch.received c₀) h.out (x ∷ []));
    right = All-append IsFront h.out (x ∷ []) h.right (f, tt);
  }

  pub emit-IsSound :
      (i : ℕ) (bytes : Bytes) (b : Batch ch)
      → IsFront (i, bytes)
      → IsSound b
      → Ends IsSound (emit ch i bytes b)
  unfolding emit
  emit-IsSound i bytes b f h = emitted-IsSound b (i, bytes) (ch.send (i, bytes) b.chan) refl f h

  pub set_at-jobs :
      (b : Batch ch) (i : ℕ) (st st' : JobState)
      → IsSound b
      → get_elem? b.states i ≡ some st
      → IsJob i st'
      → (j : ℕ) (x : JobState) → get_elem? (set_at i st' b.states) j ≡ some x
      → IsJob j x
  set_at-jobs b i st st' h there job =
      each-set_at IsJob i st st' b.states there job (λ j x d g. h.jobs j x g)

  pub set_at-fresh :
      (b : Batch ch) (i : ℕ) (st st' : JobState) (next : ℕ)
      → IsSound b
      → get_elem? b.states i ≡ some st
      → b.next ≤ next
      → i < next
      → (j : ℕ) (x : JobState) → get_elem? (set_at i st' b.states) j ≡ some x
      → next ≤ j
      → (x.filled ≡ 0) × (length x.buf ≡ 0)
  set_at-fresh b i st st' next h there le below =
      each-set_at (λ j x. next ≤ j → (x.filled ≡ 0) × (length x.buf ≡ 0)) i st st' b.states there
        (λ k. absurd (omega arith)) (λ j x d g k. h.fresh j x g (omega arith))

  submit_next-IsSound :
      (o : Option JobState) (b : Batch ch)
      → get_elem? b.states b.next ≡ o
      → b.inflight < queue_depth
      → IsSound b
      → Ends IsSound (submit_next ch o b)
  submit_next-IsSound none b e room h = h
  submit_next-IsSound (some st) b e room h =
      let asked = (h.jobs b.next st e).0 in
      let zero_filled = (h.fresh b.next st e (omega arith)).0 in
      elim (Bool-cases (st.len == 0)) [
        | inl empty ↦
            let nothing : st.len ≡ 0 = ground arith in
            rw empty (
              emit-IsSound b.next [] (skip_empty ch b) (st.len, asked, rw nothing refl)
                (record {
                  jobs = h.jobs;
                  fresh = λ i x g k. h.fresh i x g (omega arith);
                  depth = h.depth;
                  out = h.out;
                  received = h.received;
                  right = h.right;
                }))
        | inr full ↦
            let room_left : st.filled < st.len = ground arith in
            rw full (record {
              jobs =
                  set_at-jobs b b.next st (record st { buf = replicate st.len 0 }) h e
                    (
                      asked,
                      inr (
                        length-replicate {A = ℕ} st.len 0,
                        room_left,
                        omega arith,
                        rw zero_filled refl,
                      ),
                    );
              fresh =
                  set_at-fresh b b.next st (record st { buf = replicate st.len 0 }) (b.next + 1) h e
                    (omega arith) (omega arith);
              depth = omega arith;
              out = h.out;
              received = h.received;
              right = h.right;
            })
      ]

  pub top_up-IsSound : (n : ℕ) (b : Batch ch) → IsSound b → Ends IsSound (top_up ch n b)
  unfolding top_up
  top_up-IsSound zero b h = h
  top_up-IsSound (suc n) b h =
      elim (Bool-cases (ltb b.inflight queue_depth && ltb b.next (length b.states))) [
        | inr stop ↦ rw stop h
        | inl go ↦
            let room : b.inflight < queue_depth = ground arith in
            rw go (
              and_then-Ends IsSound (submit_next ch (get_elem? b.states b.next) b) (top_up ch n)
                (submit_next-IsSound (get_elem? b.states b.next) b refl room h) (top_up-IsSound n))
      ]
