-- ===== src/Server/Scheduler/Batch/Independence.antt =====
-- What a step of the scheduler does to a session depends on the session alone and on whether the scheduler
-- closes, not on the metrics and the queue that the streams share.
use vox_lattice.Base.{
  ℕ, ◌≡◌, refl, Bool, true, Option, none, some, List, arith, String, if◌then◌else◌,
}
use vox_lattice.Server.Metrics.{StatusCode}
use vox_lattice.Audio.Rechunker.{SourceHop}
use vox_lattice.Server.Session.{ModelWork, emit_nowait, cancel}
use vox_lattice.Server.Scheduler.{
  Stream, fail, notify, drain_output, complete, emit_previous, apply_result,
}

module _ {S C : Type 0} where
  -- The same session, perhaps among other metrics and another queue.
  pub record Alike (s t : Stream S C) : Type 0 where
    pub session : s.session ≡ t.session
    pub closing : s.closing ≡ t.closing

  module _ (s t : Stream S C) (same : Alike s t) where
    notify-Alike : Alike (notify s).0 (notify t).0
    unfolding notify
    notify-Alike = record {
      session = ground (arith, same.session, same.closing);
      closing = ground (arith, same.session, same.closing);
    }

    fail-Alike :
        (status : StatusCode) (detail : String)
        → Alike (fail status detail s).0 (fail status detail t).0
    unfolding fail emit_nowait cancel drain_output
    fail-Alike status detail = record {
      session = ground (arith, same.session);
      closing = ground (arith, same.session, same.closing);
    }

    complete-Alike : (flushed : Bool) → Alike (complete flushed s).0 (complete flushed t).0
    unfolding complete emit_nowait fail cancel drain_output
    complete-Alike flushed = record {
      session = ground (arith, same.session);
      closing = ground (arith, same.session, same.closing);
    }

    emit_previous-Alike :
        (pcm : List ℕ) (o : Option (SourceHop S))
        → Alike (emit_previous pcm o s).0 (emit_previous pcm o t).0
          × ((emit_previous pcm o s).1 ≡ (emit_previous pcm o t).1)
    unfolding emit_previous emit_nowait fail cancel drain_output
    emit_previous-Alike pcm none = (same, refl)
    emit_previous-Alike pcm (some p) = (
      record {
        session = ground (arith, same.session);
        closing = ground (arith, same.session, same.closing);
      },
      ground (arith, same.session),
    )

  abbrev with_caches : ModelWork S → C → Stream S C → Stream S C
  with_caches work updated st = record st {
    session = record st.session {
      caches = updated;
      pending_source = if work.terminal_flush then none else work.source;
    };
  }

  pub apply_result-Alike :
      (work : ModelWork S) (pcm : List ℕ) (updated : C) (s t : Stream S C)
      → Alike s t
      → Alike (apply_result work pcm updated s).0 (apply_result work pcm updated t).0
  unfolding apply_result
  apply_result-Alike work pcm updated s t same =
      let s' = with_caches work updated s in
      let t' = with_caches work updated t in
      let same' : Alike s' t' = record {
        session = ground (arith, same.session);
        closing = same.closing;
      } in
      let e = emit_previous-Alike s' t' same' pcm s.session.pending_source in
      let c = complete-Alike _ _ e.0 true in
      let n = notify-Alike _ _ e.0 in
      record {
        session = ground (arith, same.session, e.0.session, e.1, c.session, n.session);
        closing = ground (
          arith, same.session, same.closing, e.0.session, e.0.closing, e.1, c.closing, n.closing,
        );
      }

  pub fail-Alike_session :
      (status : StatusCode) (detail : String) (s t : Stream S C)
      → Alike s t
      → (fail status detail s).0.session ≡ (fail status detail t).0.session
  fail-Alike_session status detail s t same = (fail-Alike s t same status detail).session
