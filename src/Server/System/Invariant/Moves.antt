-- ===== src/Server/System/Invariant/Moves.antt =====
-- The moves of a stream, on its view: a hop is emitted, a work taken, collected or enqueued, the
-- stream completed.
use vox_lattice.Base.{
  ℕ, ◌+◌, ◌*◌, ◌≡◌, refl, sym, ap, ap₂, ◌∙◌, ◌⊎◌, inl, inr, Bool, true, false, Option, none, some,
  List, [], ◌∷◌, ◌++◌, map, append_assoc, if◌then◌else◌, arith, length,
}
use mathlib.Core.List.{map-append}
use mathlib.Core.Path.{subst}
use vox_lattice.Audio.Rechunker.{SourceHop}
use vox_lattice.Audio.Rechunker.Hops.{IsHop}
use vox_lattice.Server.Session.{ModelWork, output_audio, stream_completion}
use vox_lattice.Server.Service.{Todo}
use vox_lattice.Server.System.Flow.{
  Item, item_of_flags, work_item, todo_item, option_items, flight_items, Flow, OnlyHops, Events-le,
  Events-append, Sent-le, Flow-le,
}
use vox_lattice.Server.System.Invariant.{View, Live, Inv, items, queued}

module _ {S : Type 0} where
  pub pending_first :
      (a : ℕ) (o : Option (SourceHop S)) (p : SourceHop S) (rest : List (Item S)) (b n : ℕ)
      → o ≡ some p
      → Flow a (option_items o ++ rest) b n
      → (p.start_sample ≡ a) × IsHop p × Flow (a + p.valid_samples) rest b n
  pending_first a o p rest b n e h = rw e at h

  OnlyHops-tail :
      (o : Option (SourceHop S)) (rest : List (Item S))
      → OnlyHops (option_items o ++ rest)
      → OnlyHops rest
  OnlyHops-tail none rest h = h
  OnlyHops-tail (some x) rest h = h

  -- The completion is queued, with the counts that agree after a flush. What was on its way is
  -- irrelevant from then on.
  pub completed-Inv :
      (v : View S) (flushed : Bool) (pending : Option (SourceHop S)) (works : List (ModelWork S))
      (flight : Option (ModelWork S)) (todo : List (Todo S))
      → Inv v
      → (v.cancelled ≡ false) ⊎ (v.input_samples ≡ 0)
      → (flushed ≡ true → v.input_samples ≡ v.output_samples)
      → Inv (record v {
        pending_source = pending;
        works = works;
        in_flight = flight;
        todo = todo;
        ended = true;
        events = v.events ++ stream_completion v.input_samples v.output_samples flushed ∷ [];
      })
  completed-Inv v flushed pending works flight todo i why counts =
      let at_end : v.base + v.output_samples ≡ i.queue_end = elim why [
        | inl c ↦ sym (i.high c)
        | inr z ↦ omega (
          arith,
          i.low,
          i.accounted,
          Events-le v.base i.sent_end i.queue_end v.events i.events,
          Sent-le v.base 0 v.base v.output_sequence i.sent_end v.sent i.sent,
        )
      ] in
      record {
        sent_end = i.sent_end;
        queue_end = i.queue_end;
        sent = i.sent;
        unfinished = i.unfinished;
        events =
            Events-append v.base i.sent_end i.queue_end i.queue_end v.events
              (stream_completion v.input_samples v.output_samples flushed ∷ []) i.events
              (at_end, counts, refl);
        low = i.low;
        high = i.high;
        accounted = i.accounted;
        live = λ c. record {
          flow = λ e. cc;
          streaming = λ e. cc;
          expected = (i.live c).expected;
          rechunked = (i.live c).rechunked;
          counted = (i.live c).counted;
          short = (i.live c).short;
        };
      }

  -- The pending hop is emitted.
  pub emitted-Inv :
      (v : View S) (p : SourceHop S) (pcm : List ℕ)
      → Inv v
      → v.cancelled ≡ false
      → v.ended ≡ false
      → v.pending_source ≡ some p
      → length pcm ≡ p.valid_samples * 2
      → Inv (record v {
        pending_source = none;
        output_samples = v.output_samples + p.valid_samples;
        events = v.events ++ output_audio p.start_sample pcm p.valid_samples ∷ [];
      })
  emitted-Inv v p pcm i c e pending size =
      let l : Live v = i.live c in
      let rest : List (Item S) = flight_items v.in_flight ++ queued v in
      let (at, is_hop, flow) =
        pending_first (v.base + v.output_samples) v.pending_source p rest v.rechunker.next_sample
          v.rechunker.pending_samples pending (l.flow e) in
      let after : v.base + v.output_samples + p.valid_samples
          ≡ v.base + (v.output_samples + p.valid_samples) =
        omega arith in
      let flow' =
        subst (λ a. Flow a rest v.rechunker.next_sample v.rechunker.pending_samples) after flow in
      record {
        sent_end = i.sent_end;
        queue_end = v.base + (v.output_samples + p.valid_samples);
        sent = i.sent;
        unfinished = i.unfinished;
        events =
            Events-append v.base i.sent_end i.queue_end
              (v.base + (v.output_samples + p.valid_samples)) v.events
              (output_audio p.start_sample pcm p.valid_samples ∷ []) i.events
              (omega (arith, at, i.high c), is_hop.some_valid, size, omega (arith, i.high c));
        low = omega arith;
        high = λ _. refl;
        accounted = omega (
          arith,
          Flow-le (v.base + (v.output_samples + p.valid_samples)) v.rechunker.next_sample
              v.rechunker.pending_samples rest flow',
          l.expected,
          l.rechunked,
        );
        live = λ _. record {
          flow = λ _. flow';
          streaming = λ x y. OnlyHops-tail v.pending_source rest (l.streaming x y);
          expected = l.expected;
          rechunked = l.rechunked;
          counted = l.counted;
          short = l.short;
        };
      }

  -- What is pending once the work is done.
  abbrev pub next_pending : ModelWork S → Option (SourceHop S)
  next_pending w = if w.terminal_flush then none else w.source

  taken-Flow :
      (flush noflush : Bool) (o : Option (SourceHop S)) (rest : List (Item S)) (a b p : ℕ)
      → Flow a (item_of_flags flush noflush o ∷ rest) b p
      → Flow a (option_items (if flush then none else o) ++ rest) b p
  taken-Flow false false none rest a b p h = absurd h
  taken-Flow false false (some x) rest a b p h = h
  taken-Flow false true none rest a b p h = rw h.0 h.1
  taken-Flow false true (some x) rest a b p h = absurd h
  taken-Flow true false none rest a b p h = rw h.0 h.1
  taken-Flow true false (some x) rest a b p h = absurd h
  taken-Flow true true o rest a b p h = absurd h

  taken_hops :
      (flush noflush : Bool) (o : Option (SourceHop S)) (rest : List (Item S))
      → OnlyHops (item_of_flags flush noflush o ∷ rest)
      → OnlyHops (option_items (if flush then none else o) ++ rest)
  taken_hops false false none rest h = absurd h
  taken_hops false false (some x) rest h = h
  taken_hops false true none rest h = absurd h
  taken_hops false true (some x) rest h = absurd h
  taken_hops true false none rest h = absurd h
  taken_hops true false (some x) rest h = absurd h
  taken_hops true true o rest h = absurd h

  -- The work in flight is done, and its hop becomes the pending one.
  pub taken-Inv :
      (v : View S) (w : ModelWork S)
      → Inv v
      → v.pending_source ≡ none
      → v.in_flight ≡ some w
      → Inv (record v { pending_source = next_pending w; in_flight = none })
  taken-Inv v w i pending flight = record {
    sent_end = i.sent_end;
    queue_end = i.queue_end;
    sent = i.sent;
    unfinished = i.unfinished;
    events = i.events;
    low = i.low;
    high = i.high;
    accounted = i.accounted;
    live = λ c. record {
      flow = λ e.
          taken-Flow w.terminal_flush w.terminal_no_flush w.source (queued v)
            (v.base + v.output_samples) v.rechunker.next_sample v.rechunker.pending_samples
            (subst
              (λ l.
                Flow (v.base + v.output_samples) l v.rechunker.next_sample
                  v.rechunker.pending_samples)
              first ((i.live c).flow e));
      streaming = λ e s.
          taken_hops w.terminal_flush w.terminal_no_flush w.source (queued v)
            (subst OnlyHops first ((i.live c).streaming e s));
      expected = (i.live c).expected;
      rechunked = (i.live c).rechunked;
      counted = (i.live c).counted;
      short = (i.live c).short;
    };
  }
    where
      first : items v ≡ work_item w ∷ queued v
      first = ap₂ (λ p g. option_items p ++ (flight_items g ++ queued v)) pending flight

  -- The same items, in other places.
  pub rearranged-Inv :
      (v : View S) (works : List (ModelWork S)) (flight : Option (ModelWork S))
      (todo : List (Todo S))
      → Inv v
      → items (record v { works = works; in_flight = flight; todo = todo }) ≡ items v
      → Inv (record v { works = works; in_flight = flight; todo = todo })
  rearranged-Inv v works flight todo i same = record {
    sent_end = i.sent_end;
    queue_end = i.queue_end;
    sent = i.sent;
    unfinished = i.unfinished;
    events = i.events;
    low = i.low;
    high = i.high;
    accounted = i.accounted;
    live = λ c. record {
      flow = λ e.
          subst
            (λ l.
              Flow (v.base + v.output_samples) l v.rechunker.next_sample
                v.rechunker.pending_samples)
            (sym same) ((i.live c).flow e);
      streaming = λ e s. subst OnlyHops (sym same) ((i.live c).streaming e s);
      expected = (i.live c).expected;
      rechunked = (i.live c).rechunked;
      counted = (i.live c).counted;
      short = (i.live c).short;
    };
  }

  -- The scheduler takes the first work of the queue.
  pub collected-Inv :
      (v : View S) (w : ModelWork S) (ws : List (ModelWork S))
      → Inv v
      → v.in_flight ≡ none
      → v.works ≡ w ∷ ws
      → Inv (record v { works = ws; in_flight = some w })
  collected-Inv v w ws i free head = rearranged-Inv v ws (some w) v.todo i (
      sym (
        ap₂
          (λ g q.
            option_items v.pending_source
            ++ (flight_items g ++ (map work_item q ++ map todo_item v.todo)))
          free head))

  -- The reader puts the first of its list into the queue.
  pub enqueued-Inv :
      (v : View S) (w : ModelWork S) (t : Todo S) (ts : List (Todo S))
      → Inv v
      → v.todo ≡ t ∷ ts
      → work_item w ≡ todo_item t
      → Inv (record v { works = v.works ++ w ∷ []; todo = ts })
  enqueued-Inv v w t ts i head same =
      rearranged-Inv v (v.works ++ w ∷ []) v.in_flight ts i
        (ap (λ q. option_items v.pending_source ++ (flight_items v.in_flight ++ q)) moved)
    where
      moved : map work_item (v.works ++ w ∷ []) ++ map todo_item ts ≡ queued v
      moved =
          ap (λ l. l ++ map todo_item ts) (map-append work_item v.works (w ∷ []))
          ∙ append_assoc (map work_item v.works) (work_item w ∷ []) (map todo_item ts)
          ∙ ap (λ l. map work_item v.works ++ l)
              (ap (λ x. x ∷ map todo_item ts) same ∙ sym (ap (map todo_item) head))

  -- What is on its way in a stream that is cancelled or ended may change freely.
  pub idle-Inv :
      (v : View S) (works : List (ModelWork S)) (flight : Option (ModelWork S))
      (todo : List (Todo S))
      → Inv v
      → (v.cancelled ≡ true) ⊎ (v.ended ≡ true)
      → Inv (record v { works = works; in_flight = flight; todo = todo })
  idle-Inv v works flight todo i why = record {
    sent_end = i.sent_end;
    queue_end = i.queue_end;
    sent = i.sent;
    unfinished = i.unfinished;
    events = i.events;
    low = i.low;
    high = i.high;
    accounted = i.accounted;
    live = λ c. record {
      flow = λ e. absurd (elim why [ inl x ↦ cc | inr x ↦ cc ]);
      streaming = λ e. absurd (elim why [ inl x ↦ cc | inr x ↦ cc ]);
      expected = (i.live c).expected;
      rechunked = (i.live c).rechunked;
      counted = (i.live c).counted;
      short = (i.live c).short;
    };
  }

  flush_end :
      (noflush : Bool) (o : Option (SourceHop S)) (rest : List (Item S)) (a b p : ℕ)
      → Flow a (item_of_flags true noflush o ∷ rest) b p
      → (a ≡ b) × (p ≡ 0)
  flush_end false none rest a b p h = (h.1, h.2)
  flush_end false (some x) rest a b p h = absurd h
  flush_end true o rest a b p h = absurd h

  -- When the flush is all that is in work, every sample of the input is output.
  pub flush_counts :
      (v : View S) (w : ModelWork S)
      → Inv v
      → v.cancelled ≡ false
      → v.ended ≡ false
      → v.pending_source ≡ none
      → v.in_flight ≡ some w
      → w.terminal_flush ≡ true
      → v.input_samples ≡ v.output_samples
  flush_counts v w i c e pending flight flag =
      let l : Live v = i.live c in
      let first : items v ≡ item_of_flags true w.terminal_no_flush w.source ∷ queued v =
        ap₂ (λ p g. option_items p ++ (flight_items g ++ queued v)) pending flight
        ∙ ap (λ b. item_of_flags b w.terminal_no_flush w.source ∷ queued v) flag in
      let (a, p) =
        flush_end w.terminal_no_flush w.source (queued v) (v.base + v.output_samples)
          v.rechunker.next_sample v.rechunker.pending_samples
          (subst
            (λ q.
              Flow (v.base + v.output_samples) q v.rechunker.next_sample
                v.rechunker.pending_samples)
            first (l.flow e)) in
      omega (arith, a, p, l.rechunked, l.expected)
