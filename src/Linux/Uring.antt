-- ===== src/Linux/Uring.antt =====
-- `read_batch` of src/io_uring_src.rs. What the kernel does is an argument: the completions that each
-- `submit_and_wait` brings, in any order, each a job with an error or with the bytes that were read. A
-- read takes up to so many bytes as the completion says, from the place where the last one ended, and
-- none at the end of the file only. `emit` sends on a channel: it says `false` when the channel is closed.
-- The submission queue has room for `queue_depth` entries, so a push within the loop does not fail.
pub mod Progress
pub mod Filled
pub mod Sound
pub mod Keeps
use tzip.Prelude.{
  ℕ, zero, suc, ◌+◌, ◌-◌, ◌==◌, leb, ltb, min, Bool, ◌&&◌, Option, none, some, List, [], ◌∷◌, ◌++◌,
  if◌then◌else◌, length, get_elem?, take, drop, replicate, map,
}
use tzip.Bytes.{Bytes, copy_from_slice}
use tzip.Channel.{Channel, Outcome, and_then, then_loop}
use tzip.RawApfs.Bulk.Reads.{set_at}

abbrev pub queue_depth : ℕ
queue_depth = 128

pub record JobState : Type 0 where
  pub buf : Bytes
  pub filled : ℕ
  pub len : ℕ

-- An error, or up to `1 + n` bytes.
pub data Completion : Type 0 where
  error : ℕ → Completion
  read : ℕ → ℕ → Completion

-- The length in the job's `stat`.
abbrev pub start_state : ℕ → JobState
start_state len = record { buf = []; filled = 0; len = len }

module _ (ch : Channel (ℕ × Bytes)) where
  pub record Batch : Type 0 where
    pub states : List JobState
    pub next : ℕ
    pub inflight : ℕ
    pub done : ℕ
    pub chan : ch.State

  unfoldable pub start : List ℕ → ch.State → Batch
  start lens c = record {
    states = map start_state lens;
    next = 0;
    inflight = 0;
    done = 0;
    chan = c;
  }

  abbrev pub emitted : Batch → Option ch.State → Outcome Batch
  emitted b none = Outcome.closed b
  emitted b (some c) = Outcome.next (record b { chan = c })

  unfoldable pub emit : ℕ → Bytes → Batch → Outcome Batch
  emit i bytes b = emitted b (ch.send (i, bytes) b.chan)

  -- A job's buffer is made when it is submitted.
  abbrev pub submit : ℕ → JobState → Batch → Batch
  submit i st b = record b {
    states = set_at i (record st { buf = replicate st.len 0 }) b.states;
    inflight = b.inflight + 1;
    next = b.next + 1;
  }

  abbrev pub skip_empty : Batch → Batch
  skip_empty b = record b { done = b.done + 1; next = b.next + 1 }

  abbrev pub submit_next : Option JobState → Batch → Outcome Batch
  submit_next none b = Outcome.next b
  submit_next (some st) b =
      if st.len == 0 then emit b.next [] (skip_empty b) else Outcome.next (submit b.next st b)

  -- The loop that tops the queue up, on the number of jobs.
  unfoldable pub top_up : ℕ → Batch → Outcome Batch
  top_up zero b = Outcome.next b
  top_up (suc n) b =
      if ltb b.inflight queue_depth && ltb b.next (length b.states)
      then and_then (submit_next (get_elem? b.states b.next) b) (top_up n)
      else Outcome.next b

  abbrev pub finish_job : ℕ → JobState → Batch → Batch
  finish_job i st b = record b {
    states = set_at i (record st { buf = [] }) b.states;
    inflight = b.inflight - 1;
    done = b.done + 1;
  }

  module _ (file : ℕ → Bytes) where
    -- What a read of up to `1 + n` bytes finds.
    abbrev pub read_found : ℕ → ℕ → JobState → Bytes
    read_found i n st = take (min (suc n) (st.len - st.filled)) (drop st.filled (file i))

    abbrev pub advanced : JobState → Bytes → JobState
    advanced st got = record st {
      buf = copy_from_slice st.filled got st.buf;
      filled = st.filled + length got;
    }

    -- The end of the file, the end of the job, or a short read, which is queued again.
    unfoldable pub complete_read : ℕ → JobState → Bytes → Batch → Outcome Batch
    complete_read i st got b =
        let st' : JobState = advanced st got in
        if length got == 0
        then emit i (take st.filled st.buf) (finish_job i st b)
        else if leb st'.len st'.filled
        then emit i st'.buf (finish_job i st' b)
        else Outcome.next (record b { states = set_at i st' b.states })

    -- Completions come for jobs in flight, whose buffer is there.
    abbrev pub complete_job : ℕ → ℕ → Option JobState → Batch → Outcome Batch
    complete_job i n none b = Outcome.next b
    complete_job i n (some st) b =
        if length st.buf == 0 then Outcome.next b else complete_read i st (read_found i n st) b

    unfoldable pub complete : Completion → Batch → Outcome Batch
    complete (Completion.error i) b = Outcome.failed b
    complete (Completion.read i n) b = complete_job i n (get_elem? b.states i) b

    -- The loop, on what the kernel brings in each round; it waits where there are no more rounds.
    unfoldable pub read_batch : List (List Completion) → Batch → Outcome Batch
    read_batch [] b = Outcome.next b
    read_batch (round ∷ rounds) b =
        if leb (length b.states) b.done
        then Outcome.next b
        else and_then (top_up (length b.states) b) (λ b'.
          if b'.inflight == 0
          then Outcome.next b'
          else and_then (then_loop complete round b') (read_batch rounds))
