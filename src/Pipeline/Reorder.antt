-- ===== src/Pipeline/Reorder.antt =====
-- The writer loops of `run` in src/pipeline.rs: entries come from the channel in any order, and with
-- `--sort` each waits in `pending` until its index is next.
pub mod Order
use tzip.Prelude.{
  ℕ, zero, suc, ◌+◌, ◌==◌, Option, none, some, List, [], ◌∷◌, if◌then◌else◌, length, ◌>>=◌,
}
use tzip.Prelude.Assoc.{Map, lookup, remove, insert}
use tzip.Zip.Entry.{EncodedEntry}
use tzip.Zip.Writer.{Sink, ZipWriter, write_entry}

module _ (S : Sink) where
  pub record Loop : Type 0 where
    pub zw : ZipWriter S
    pub pending : Map EncodedEntry
    pub next_idx : ℕ
    pub wrote_files : ℕ

  abbrev pub start : ZipWriter S → Loop
  start zw = record { zw = zw; pending = []; next_idx = 0; wrote_files = 0 }

  -- `while let Some(e) = pending.remove(&next_idx)`: every round takes an entry out of `pending`, so its
  -- length is enough fuel.
  unfoldable pub drain : ℕ → Loop → Option Loop
  drain zero s = some s
  drain (suc fuel) s = elim (lookup s.next_idx s.pending) [
    | none ↦ some s
    | some e ↦ do
      zw ← write_entry S s.zw e
      drain fuel (record {
        zw = zw;
        pending = remove s.next_idx s.pending;
        next_idx = s.next_idx + 1;
        wrote_files = s.wrote_files + 1;
      })
  ]

  -- One entry received.
  unfoldable pub receive : Loop → EncodedEntry → Option Loop
  receive s e =
      let pending = insert e.index e s.pending in
      drain (length pending) (record {
        zw = s.zw;
        pending = pending;
        next_idx = s.next_idx;
        wrote_files = s.wrote_files;
      })

  -- The loop of `--sort` on the entries in the order of their arrival.
  unfoldable pub write_sorted : Loop → List EncodedEntry → Option Loop
  write_sorted s [] = some s
  write_sorted s (e ∷ es) = do s' ← receive s e; write_sorted s' es
