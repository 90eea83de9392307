-- ===== src/Linux/Uring/Sound.antt =====
-- The buffers of src/io_uring_src.rs against the files, as completions come.
use tzip.Prelude.{
  ℕ, suc, ◌+◌, ◌-◌, ◌≤◌, ◌<◌, ◌==◌, ◌≡◌, refl, sym, ◌∙◌, arith, Bool-cases, leb, ltb, min, inl, inr,
  Option, some, none, List, [], ◌∷◌, append-nil, length, get_elem?, take, drop, length-take,
  length-drop, take-short, take-all,
}
use tzip.Bytes.{Bytes}
use tzip.Bytes.Slices.{length-copy_from_slice}
use tzip.Channel.{Channel, then_loop, Ends, and_then-Ends, then_loop-Ends}
use tzip.Linux.Uring.Progress.{advance, start-jobs}
use tzip.Linux.Uring.{
  JobState, Completion, Batch, start, top_up, finish_job, read_found, advanced, complete_read,
  complete_job, complete, read_batch,
}
use tzip.Linux.Uring.Filled.{IsSound, emit-IsSound, set_at-jobs, set_at-fresh, top_up-IsSound}

module _ (ch : Channel (ℕ × Bytes)) (file : ℕ → Bytes) (lens : List ℕ) (c₀ : ch.State) where
  complete_read-IsSound :
      (i n : ℕ) (st : JobState) (b : Batch ch)
      → get_elem? b.states i ≡ some st
      → IsSound ch file lens c₀ b
      → length st.buf ≡ st.len
      → st.filled < st.len
      → st.filled ≤ length (file i)
      → take st.filled st.buf ≡ take st.filled (file i)
      → Ends (IsSound ch file lens c₀) (complete_read ch file i st (read_found ch file i n st) b)
  unfolding complete_read
  complete_read-IsSound i n st b there h whole room within front =
      let got : Bytes = read_found ch file i n st in
      let st' : JobState = advanced ch file st got in
      let asked = (h.jobs i st there).0 in
      let below : i < b.next = elim (Bool-cases (ltb i b.next)) [
        | inl yes_below ↦ ground arith
        | inr above ↦ let idle = (h.fresh i st there (ground arith)).1 in absurd (omega arith)
      ] in
      let short : length got
          ≡ min (min (suc n) (st.len - st.filled)) (length (drop st.filled (file i))) =
        length-take (min (suc n) (st.len - st.filled)) (drop st.filled (file i)) in
      let left = length-drop st.filled (file i) in
      let fits : st.filled + length got ≤ st.len = omega arith in
      let (front', within') =
        advance st (file i) got (min (suc n) (st.len - st.filled)) whole within front refl fits in
      let whole' : length st'.buf ≡ st.len =
        length-copy_from_slice st.filled got st.buf (omega arith) ∙ whole in
      let finished : (x : JobState)
          → get_elem? lens i ≡ some x.len
          → IsSound ch file lens c₀ (finish_job ch i x b) =
        λ x a. record {
          jobs = set_at-jobs ch file lens c₀ b i st (record x { buf = [] }) h there (a, inl refl);
          fresh =
              set_at-fresh ch file lens c₀ b i st (record x { buf = [] }) b.next h there
                (omega arith) below;
          depth = let deep = h.depth in omega arith;
          out = h.out;
          received = h.received;
          right = h.right;
        } in
      elim (Bool-cases (length got == 0)) [
        | inl over ↦
            let nothing : length got ≡ 0 = ground arith in
            let all_read : length (file i) ≤ st.filled = omega arith in
            rw over (
              emit-IsSound ch file lens c₀ i (take st.filled st.buf) (finish_job ch i st b)
                (st.len, asked, front ∙ take-short st.filled st.len (file i) all_read (omega arith))
                (finished st asked))
        | inr more ↦ elim (Bool-cases (leb st'.len st'.filled)) [
          | inl ready ↦
              let exact : st.filled + length got ≡ st.len = ground arith in
              let bytes : st'.buf ≡ take st.len (file i) =
                sym (take-all st.len st'.buf (omega (arith, whole'))) ∙ (rw exact at front') in
              rw (more, ready)
                (emit-IsSound ch file lens c₀ i st'.buf (finish_job ch i st' b)
                  (st.len, asked, bytes) (finished st' asked))
          | inr partial ↦
              let room' : st.filled + length got < st.len = ground arith in
              rw (more, partial)
                (record {
                  jobs =
                      set_at-jobs ch file lens c₀ b i st st' h there
                        (asked, inr (whole', room', within', front'));
                  fresh =
                      set_at-fresh ch file lens c₀ b i st st' b.next h there (omega arith) below;
                  depth = h.depth;
                  out = h.out;
                  received = h.received;
                  right = h.right;
                })
        ]
      ]

  complete_job-IsSound :
      (i n : ℕ) (o : Option JobState) (b : Batch ch)
      → get_elem? b.states i ≡ o
      → IsSound ch file lens c₀ b
      → Ends (IsSound ch file lens c₀) (complete_job ch file i n o b)
  complete_job-IsSound i n none b e h = h
  complete_job-IsSound i n (some st) b e h = elim (Bool-cases (length st.buf == 0)) [
    | inl idle ↦ rw idle h
    | inr busy ↦ elim (h.jobs i st e).1 [
      | inl none_there ↦ absurd (ground arith)
      | inr (whole, room, within, front) ↦
          rw busy (complete_read-IsSound i n st b e h whole room within front)
    ]
  ]

  complete-IsSound :
      (x : Completion) (b : Batch ch)
      → IsSound ch file lens c₀ b
      → Ends (IsSound ch file lens c₀) (complete ch file x b)
  unfolding complete
  complete-IsSound (Completion.error i) b h = h
  complete-IsSound (Completion.read i n) b h =
      complete_job-IsSound i n (get_elem? b.states i) b refl h

  rounds-IsSound :
      (rounds : List (List Completion)) (b : Batch ch)
      → IsSound ch file lens c₀ b
      → Ends (IsSound ch file lens c₀) (read_batch ch file rounds b)
  unfolding read_batch
  rounds-IsSound [] b h = h
  rounds-IsSound (round ∷ rounds) b h = elim (Bool-cases (leb (length b.states) b.done)) [
    | inl over ↦ rw over h
    | inr more ↦ rw more (
        and_then-Ends (IsSound ch file lens c₀) (top_up ch (length b.states) b) _
          (top_up-IsSound ch file lens c₀ (length b.states) b h)
          (λ b' h'. elim (Bool-cases (b'.inflight == 0)) [
            | inl idle ↦ rw idle h'
            | inr busy ↦ rw busy (
                and_then-Ends (IsSound ch file lens c₀) (then_loop (complete ch file) round b')
                  (read_batch ch file rounds)
                  (then_loop-Ends (IsSound ch file lens c₀) (complete ch file) complete-IsSound
                    round b' h')
                  (rounds-IsSound rounds))
          ]))
  ]

  -- Whatever completions the kernel brings, in any order and however short the reads: what `read_batch` hands
  -- on for a job is the front of that job's file, as long as the length asked for or to the file's end, and no
  -- more than 128 reads are in flight; also where it ends in an error or early.
  pub read_batch-IsSound :
      (rounds : List (List Completion))
      → Ends (IsSound ch file lens c₀) (read_batch ch file rounds (start ch lens c₀))
  unfolding start
  read_batch-IsSound rounds = rounds-IsSound rounds (start ch lens c₀) (record {
    jobs = λ i st g. let s = start-jobs lens i st g in (s.0, inl s.2);
    fresh = λ i st g k. let s = start-jobs lens i st g in (s.1, s.2);
    depth = omega arith;
    out = [];
    received = sym (append-nil (ch.received c₀));
    right = tt;
  })
