-- ===== src/Server/System/Invariant/Reads.antt =====
-- The moves of the reader, on the view: a chunk of audio is accepted, the input ends.
use vox_lattice.Base.{
  ℕ, ◌+◌, ◌<◌, ◌≡◌, refl, sym, ap, ◌∙◌, Bool, true, false, Option, none, some, List, [], ◌∷◌, ◌++◌,
  map, append_assoc, arith, length,
}
use mathlib.Core.Path.{subst}
use vox_lattice.Audio.Rechunker.{SourceHop, PcmRechunker, hop_samples}
use vox_lattice.Audio.Rechunker.Drain.{Counted}
use vox_lattice.Audio.Rechunker.Hops.{Chain}
use vox_lattice.Audio.Rechunker.Calls.{Appended, Flushed, to_list}
use vox_lattice.Server.Service.{Todo, put_source, finish_flush, put_no_flush}
use vox_lattice.Server.System.Flow.{
  work_item, todo_item, option_items, flight_items, Flow, OnlyHops, Flow-append, OnlyHops-append,
  Chain-Flow,
}
use vox_lattice.Server.System.Invariant.{View, Live, Inv, items}

module _ {S : Type 0} where
  -- With nothing left to enqueue, what the reader lists next goes behind everything else.
  items_todo :
      (v : View S) (todo : List (Todo S))
      → v.todo ≡ []
      → items (record v { todo = todo }) ≡ items v ++ map todo_item todo
  items_todo v todo e = sym (
      ap
        (λ t.
          (option_items v.pending_source
            ++ (flight_items v.in_flight ++ (map work_item v.works ++ map todo_item t)))
          ++ map todo_item todo)
        e
      ∙ append_assoc (option_items v.pending_source)
          (flight_items v.in_flight ++ (map work_item v.works ++ [])) (map todo_item todo)
      ∙ ap (λ l. option_items v.pending_source ++ l)
          (append_assoc (flight_items v.in_flight) (map work_item v.works ++ [])
              (map todo_item todo)
            ∙ ap (λ l. flight_items v.in_flight ++ l)
                (append_assoc (map work_item v.works) [] (map todo_item todo))))

  -- What the reader lists, and the rechunker it leaves, continue the rechunker's output after `n`
  -- more samples of input.
  record Continues (v : View S) (n : ℕ) (r : PcmRechunker S) (saw_end : Bool) (todo : List (Todo S))
      : Type 0 where
    flow : Flow v.rechunker.next_sample (map todo_item todo) r.next_sample r.pending_samples
    hops : saw_end ≡ false → OnlyHops (map todo_item todo)
    total :
        r.next_sample + r.pending_samples
        ≡ v.rechunker.next_sample + v.rechunker.pending_samples + n
    counted : Counted r
    short : r.pending_samples < hop_samples

  listed-Inv :
      (v : View S) (n expected input : ℕ) (r : PcmRechunker S) (saw_end : Bool)
      (todo : List (Todo S))
      → Inv v
      → v.saw_end ≡ false
      → v.todo ≡ []
      → expected ≡ v.expected + n
      → input ≡ v.input_samples + n
      → (v.cancelled ≡ false → Continues v n r saw_end todo)
      → Inv (record v {
        expected = expected;
        input_samples = input;
        rechunker = r;
        saw_end = saw_end;
        todo = todo;
      })
  listed-Inv v n expected input r saw_end todo i open_end idle e1 e2 new = record {
    sent_end = i.sent_end;
    queue_end = i.queue_end;
    sent = i.sent;
    unfinished = i.unfinished;
    events = i.events;
    low = i.low;
    high = i.high;
    accounted = omega (arith, i.accounted);
    live = λ c.
        let l : Live v = i.live c in
        let k : Continues v n r saw_end todo = new c in
        record {
          flow = λ e.
              subst (λ q. Flow (v.base + v.output_samples) q r.next_sample r.pending_samples)
                (sym (items_todo v todo idle))
                (Flow-append (v.base + v.output_samples) v.rechunker.next_sample r.next_sample
                  v.rechunker.pending_samples r.pending_samples (items v) (map todo_item todo)
                  (l.streaming e open_end) (l.flow e) k.flow);
          streaming = λ e s.
              subst OnlyHops (sym (items_todo v todo idle)) (
                OnlyHops-append (items v) (map todo_item todo) (l.streaming e open_end) (k.hops s));
          expected = omega (arith, l.expected);
          rechunked = omega (arith, l.rechunked, k.total);
          counted = k.counted;
          short = k.short;
        };
  }

  -- A chunk of `n` samples was rechunked into `hops`.
  pub accepted-Inv :
      (v : View S) (n : ℕ) (hops : List (SourceHop S)) (r : PcmRechunker S)
      → Inv v
      → v.saw_end ≡ false
      → v.todo ≡ []
      → (v.cancelled ≡ false → (xs : List S) × (length xs ≡ n) × Appended xs v.rechunker hops r)
      → Inv (record v {
        expected = v.expected + n;
        input_samples = v.input_samples + n;
        rechunker = r;
        saw_end = false;
        todo = map put_source hops;
      })
  accepted-Inv v n hops r i open_end idle new =
      listed-Inv v n (v.expected + n) (v.input_samples + n) r false (map put_source hops) i open_end
        idle refl refl
        λ c.
          let (xs, size, d) = new c in
          let k = Chain-Flow v.rechunker.next_sample r.next_sample r.pending_samples hops d.chain in
          record {
            flow = k.0;
            hops = λ _. k.1;
            total = omega (arith, d.total, size);
            counted = d.counted;
            short = d.short;
          }

  flush-Flow :
      (a b p : ℕ) (o : Option (SourceHop S))
      → Chain a (to_list o) b
      → p ≡ 0
      → Flow a (map todo_item (map put_source (to_list o) ++ finish_flush ∷ [])) b p
  flush-Flow a b p none h e = (refl, h, e)
  flush-Flow a b p (some x) h e = (h.0, h.1, (refl, h.2, e))

  -- The input ends with a flush: the last partial hop, if any, and then the flush.
  pub flushed-Inv :
      (v : View S) (o : Option (SourceHop S)) (r : PcmRechunker S)
      → Inv v
      → v.saw_end ≡ false
      → v.todo ≡ []
      → (v.cancelled ≡ false → Flushed v.rechunker (to_list o) r)
      → Inv (record v {
        rechunker = r;
        saw_end = true;
        todo = map put_source (to_list o) ++ finish_flush ∷ [];
      })
  flushed-Inv v o r i open_end idle new =
      listed-Inv v 0 v.expected v.input_samples r true
        (map put_source (to_list o) ++ finish_flush ∷ []) i open_end idle (omega arith)
        (omega arith)
        λ c.
          let d : Flushed v.rechunker (to_list o) r = new c in
          record {
            flow =
                flush-Flow v.rechunker.next_sample r.next_sample r.pending_samples o d.chain
                  d.emptied;
            hops = λ h. cc;
            total = omega (arith, d.total, d.emptied);
            counted = d.counted;
            short = omega (arith, d.emptied);
          }

  -- The input ends without a flush.
  pub unflushed-Inv :
      (v : View S) (garbage : List S)
      → Inv v
      → v.saw_end ≡ false
      → v.todo ≡ []
      → Inv (record v { saw_end = true; todo = put_no_flush garbage ∷ [] })
  unflushed-Inv v garbage i open_end idle =
      listed-Inv v 0 v.expected v.input_samples v.rechunker true (put_no_flush garbage ∷ []) i
        open_end idle (omega arith) (omega arith)
        λ c. record {
          flow = (refl, refl);
          hops = λ h. cc;
          total = omega arith;
          counted = (i.live c).counted;
          short = (i.live c).short;
        }
