-- ===== src/Server/System/Invariant.antt =====
-- The invariant of a stream. It speaks of the fields that matter, gathered in a view, so that the
-- others may change freely.
pub mod Moves
pub mod Reads
use vox_lattice.Base.{
  ℕ, ◌+◌, ◌≤◌, ◌<◌, ◌≡◌, refl, Bool, true, false, Option, none, some, List, [], ◌∷◌, ◌++◌, map,
  arith,
}
use vox_lattice.Audio.Rechunker.{SourceHop, PcmRechunker, hop_samples}
use vox_lattice.Audio.Rechunker.Drain.{Counted}
use vox_lattice.Server.Session.{ModelWork, OutputEvent, rpc_failure}
use vox_lattice.Server.Metrics.{StatusCode}
use vox_lattice.Server.Service.{Todo, ServerMessage}
use vox_lattice.Server.System.{System}
use vox_lattice.Server.System.Flow.{
  Item, work_item, todo_item, option_items, flight_items, Flow, OnlyHops, Events, Events-le, Sent,
  Open,
}

pub record View (S : Type 0) : Type 0 where
  pub base : ℕ
  pub expected : ℕ
  pub input_samples : ℕ
  pub output_samples : ℕ
  pub output_sequence : ℕ
  pub rechunker : PcmRechunker S
  pub works : List (ModelWork S)
  pub events : List OutputEvent
  pub pending_source : Option (SourceHop S)
  pub ended : Bool
  pub cancelled : Bool
  pub saw_end : Bool
  pub handling : Bool
  pub todo : List (Todo S)
  pub in_flight : Option (ModelWork S)
  pub sent : List ServerMessage

module _ {S C : Type 0} where
  abbrev pub view : System S C → View S
  view s = record {
    base = s.stream.session.input_start_sample;
    expected = s.stream.session.expected_input_sample;
    input_samples = s.stream.session.input_samples;
    output_samples = s.stream.session.output_samples;
    output_sequence = s.stream.session.output_sequence;
    rechunker = s.stream.session.rechunker;
    works = s.stream.session.input_queue.items;
    events = s.stream.session.output_queue.items;
    pending_source = s.stream.session.pending_source;
    ended = s.stream.session.ended;
    cancelled = s.stream.session.cancelled;
    saw_end = s.saw_end;
    handling = s.handling;
    todo = s.todo;
    in_flight = s.in_flight;
    sent = s.sent;
  }

module _ {S : Type 0} where
  -- Everything on its way, the next output first.
  abbrev pub queued : View S → List (Item S)
  queued v = map work_item v.works ++ map todo_item v.todo

  abbrev pub items : View S → List (Item S)
  items v = option_items v.pending_source ++ (flight_items v.in_flight ++ queued v)

  -- While the stream is neither cancelled nor ended, what is on its way continues the output.
  pub record Live (v : View S) : Type 0 where
    pub flow :
        v.ended ≡ false
        → Flow
            (v.base + v.output_samples)
            (items v)
            v.rechunker.next_sample
            v.rechunker.pending_samples
    pub streaming : v.ended ≡ false → v.saw_end ≡ false → OnlyHops (items v)
    pub expected : v.base + v.input_samples ≡ v.expected
    pub rechunked : v.rechunker.next_sample + v.rechunker.pending_samples ≡ v.expected
    pub counted : Counted v.rechunker
    pub short : v.rechunker.pending_samples < hop_samples

  -- `sent_end` and `queue_end` are the samples after the last one sent and the last one queued.
  pub record Inv (v : View S) : Type 0 where
    pub sent_end : ℕ
    pub queue_end : ℕ
    pub sent : Sent v.base 0 v.base v.sent v.output_sequence sent_end
    pub unfinished : v.handling ≡ true → Open v.sent
    pub events : Events v.base sent_end v.events queue_end
    pub low : queue_end ≤ v.base + v.output_samples
    pub high : v.cancelled ≡ false → queue_end ≡ v.base + v.output_samples
    pub accounted : v.output_samples ≤ v.input_samples
    pub live : v.cancelled ≡ false → Live v

  -- Cancelling a stream, with its queue of events emptied but for failures, needs nothing more.
  pub cancelled-Inv :
      {v : View S} (w : View S)
      → Inv v
      → w.cancelled ≡ true
      → w.base ≡ v.base
      → w.output_sequence ≡ v.output_sequence
      → w.sent ≡ v.sent
      → w.output_samples ≡ v.output_samples
      → v.input_samples ≤ w.input_samples
      → (w.handling ≡ true → v.handling ≡ true)
      → ((n : ℕ) → Events w.base n w.events n)
      → Inv w
  cancelled-Inv {v} w i c base sequence sent output input handling quiet = record {
    sent_end = i.sent_end;
    queue_end = i.sent_end;
    sent = rw (base, sequence, sent) i.sent;
    unfinished = λ h. rw sent (i.unfinished (handling h));
    events = quiet i.sent_end;
    low =
        omega
          (arith, i.low, Events-le v.base i.sent_end i.queue_end v.events i.events, base, output);
    high = λ h. cc;
    accounted = omega (arith, i.accounted, output, input);
    live = λ h. cc;
  }
