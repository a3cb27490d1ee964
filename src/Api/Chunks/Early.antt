-- ===== src/Api/Chunks/Early.antt =====
-- What the events of chunks become in pkg/api/handlers.go.
use existora2pg.Api.Chunks.{
  ChunkTable, new_chunk_table, build_event, count_event, emit, update_table,
}
use existora2pg.Api.Events.{ProgressEvent, EventState}
use existora2pg.Prelude.{◌∙◌, ℕ, suc, ◌≡◌, refl, ap, some, arith, Text}

-- A failure is never held back: the event of the table is sent at once.
pub update_table_failed :
    (now : ℕ) (e : ProgressEvent) (st : ChunkTable)
    → e.state ≡ EventState.failed
    → (out : ProgressEvent) × ((update_table now e st).1 ≡ some out)
unfolding update_table emit
update_table_failed now e st failed =
    (build_event (count_event e e.state st), rw failed (ground arith))

started_one :
    (table partition : Text) (now : ℕ) (e : ProgressEvent)
    → e.state ≡ EventState.running
    → e.rows ≡ 0
    → ((update_table now e (new_chunk_table table partition)).0.chunks_total ≡ 1)
      × ((update_table now e (new_chunk_table table partition)).0.chunks_done ≡ 0)
      × ((update_table now e (new_chunk_table table partition)).0.chunks_failed ≡ 0)
unfolding update_table emit
started_one table partition now e running fresh = rw (running, fresh) (refl, refl, refl)

ended_counts :
    (f : ProgressEvent) (st : ChunkTable)
    → (count_event f EventState.completed st).chunks_total ≡ st.chunks_total
      × ((count_event f EventState.completed st).chunks_done ≡ suc st.chunks_done)
      × ((count_event f EventState.completed st).chunks_failed ≡ st.chunks_failed)
ended_counts f st = (ground arith, ground arith, ground arith)

emit_done :
    (now : ℕ) (s : EventState) (st : ChunkTable)
    → st.chunks_total ≡ 1
    → st.chunks_done ≡ 1
    → st.chunks_failed ≡ 0
    → ((emit now s st).1 ≡ some (build_event st)) × ((build_event st).state ≡ EventState.completed)
unfolding emit build_event
emit_done now s st total done failed = rw (total, done, failed) (refl, refl)

last_end :
    (now : ℕ) (f : ProgressEvent) (st : ChunkTable)
    → f.state ≡ EventState.completed
    → st.chunks_total ≡ 1
    → st.chunks_done ≡ 0
    → st.chunks_failed ≡ 0
    → (out : ProgressEvent) × ((update_table now f st).1 ≡ some out)
      × (out.state ≡ EventState.completed)
unfolding update_table
last_end now f st completed total done failed =
    let (t, d, x) = ended_counts f st in
    let after = count_event f EventState.completed st in
    let (shown, state) =
      emit_done now EventState.completed after (t ∙ total) (d ∙ ap suc done) (x ∙ failed) in
    (build_event after, ap (λ s. (emit now s (count_event f s st)).1) completed ∙ shown, state)

-- A table is reported as COMPLETED when its first chunk ends, if no other one has been started by
-- then: the number of chunks is counted up at their starts, not taken from the plan.
pub update_table_early :
    (table partition : Text) (start end : ℕ) (e f : ProgressEvent)
    → e.state ≡ EventState.running
    → e.rows ≡ 0
    → f.state ≡ EventState.completed
    → (out : ProgressEvent) × ((update_table end f
          (update_table start e (new_chunk_table table partition)).0).1
        ≡ some out)
      × (out.state ≡ EventState.completed)
update_table_early table partition start end e f running fresh completed =
    let (total, done, failed) = started_one table partition start e running fresh in
    last_end end f (update_table start e (new_chunk_table table partition)).0 completed total done
      failed
