-- ===== src/Plugin/Transport/Room/Bound.antt =====
-- The count of samples, and the queue, in every reachable state.
use mathlib.Core.Path.{subst}
use vox_lattice.Base.{
  ℕ, ◌+◌, ◌/◌, ◌≤◌, ◌≡◌, ◌≢◌, refl, ap, Bool, true, false, none, some, List, [], ◌∷◌, ◌++◌, arith,
  length,
}
use vox_lattice.Server.Queue
use vox_lattice.Server.Queue.{Queue, put_nowait-eq-some}
use vox_lattice.Plugin.Transport.{
  Request, audio, end_request, stop_request, reset_request, TransportConfig, GrpcWorker, enqueue,
  count_samples, take_request, acknowledge,
}
use vox_lattice.Plugin.Transport.Room.{
  Requesting, begin, samples_of, Act, counts, puts, takes, acknowledges, stops, ends, insists,
  begins, discards, clears, resets, Reach, here, next, total, other, others, Sized, total-snoc,
  others-snoc, Sized-snoc, length-le-total, one_if, limit, counted_samples, CountedSized,
}

-- What holds until the queue is drained for the first time: the count of samples is exact.
record Exact (s : Requesting) : Type 0 where
  room : s.worker.requests.maxsize ≡ limit s + 4
  pending : s.worker.pending_samples ≤ limit s
  exact :
      s.worker.pending_samples
      ≡ total s.worker.requests.items + s.in_hand + counted_samples s.counted
  sized : Sized s.worker.requests.items
  counted_sized : CountedSized s.counted
  few : others s.worker.requests.items + one_if s.ending ≤ one_if s.worker.stop + one_if s.insisted

abbrev with_items : List Request → GrpcWorker → GrpcWorker
with_items rs w = record w { requests = record w.requests { items = rs } }

enqueue-eq-some :
    (r : Request) (w w' : GrpcWorker)
    → enqueue r w ≡ some w'
    → w' ≡ with_items (w.requests.items ++ r ∷ []) w
unfolding enqueue
enqueue-eq-some r w w' e = ground (arith, put_nowait-eq-some r w.requests)

count_samples-eq-some :
    (n : ℕ) (w w' : GrpcWorker)
    → count_samples n w ≡ some w'
    → (w.pending_samples + n ≤ w.config.max_request_queue_samples)
      × (w' ≡ record w { pending_samples = w.pending_samples + n })
unfolding count_samples
count_samples-eq-some n w w' e = ground arith

take_request-eq-some :
    (w w' : GrpcWorker) (r : Request)
    → take_request w ≡ some (r, w')
    → (rs : List Request) × (w.requests.items ≡ r ∷ rs) × (w' ≡ with_items rs w)
unfolding take_request Queue.get_nowait
take_request-eq-some w w' r e = taken w.requests.items refl
  where
    taken :
        (items : List Request)
        → w.requests.items ≡ items
        → (rs : List Request) × (w.requests.items ≡ r ∷ rs) × (w' ≡ with_items rs w)
    taken [] q = absurd (ground arith)
    taken (x ∷ rs) q = (rs, ground arith, ground arith)

Sized-tail : (r : Request) (rs : List Request) → Sized (r ∷ rs) → Sized rs
Sized-tail (audio x) rs h = h.1
Sized-tail (end_request _) rs h = h
Sized-tail stop_request rs h = h
Sized-tail reset_request rs h = h

-- A request without samples is put.
put-Exact :
    (s : Requesting) (r : Request) (ending insisted : Bool)
    → Exact s
    → samples_of r ≡ 0
    → Sized (r ∷ [])
    → others s.worker.requests.items + other r + one_if ending
      ≤ one_if s.worker.stop + one_if insisted
    → Exact (record s {
      worker = with_items (s.worker.requests.items ++ r ∷ []) s.worker;
      ending = ending;
      insisted = insisted;
    })
put-Exact s r ending insisted x none_in sized few = record {
  room = x.room;
  pending = x.pending;
  exact = omega (arith, x.exact, none_in, total-snoc s.worker.requests.items r);
  sized = Sized-snoc s.worker.requests.items r x.sized sized;
  counted_sized = x.counted_sized;
  few = omega (arith, few, others-snoc s.worker.requests.items r);
}

-- No step takes back that the queue was drained.
still_undrained : (s t : Requesting) → Act s t → t.drained ≡ false → s.drained ≡ false
still_undrained s _ (counts _ _ _ _ _) e = e
still_undrained s _ (puts _ _ _ _) e = e
still_undrained s _ (takes _ _ _) e = e
still_undrained s _ (acknowledges _ _) e = e
still_undrained s _ (stops _) e = e
still_undrained s _ (ends _ _ _) e = e
still_undrained s _ (insists _ _ _) e = e
still_undrained s _ (begins _ _) e = e
still_undrained s _ (discards _ _ _) e = absurd (cc)
still_undrained s _ clears e = absurd (cc)
still_undrained s _ (resets _ _ _) e = e

Act-Exact : (s t : Requesting) → Act s t → t.drained ≡ false → Exact s → Exact t
unfolding acknowledge
Act-Exact s _ (counts r w free some_samples e) clean x =
    let (fits, made) = count_samples-eq-some (length r.pcm_s16le / 2) s.worker w e in
    rw made (record {
      room = x.room;
      pending = fits;
      exact = omega (arith, x.exact, ap counted_samples free);
      sized = x.sized;
      counted_sized = some_samples;
      few = x.few;
    })
Act-Exact s _ (puts r w mine e) clean x = rw (enqueue-eq-some (audio r) s.worker w e) (record {
  room = x.room;
  pending = x.pending;
  exact =
      omega (arith, x.exact, ap counted_samples mine, total-snoc s.worker.requests.items (audio r));
  sized =
      Sized-snoc s.worker.requests.items (audio r) x.sized
        (subst CountedSized mine x.counted_sized, tt);
  counted_sized = tt;
  few = omega (arith, x.few, others-snoc s.worker.requests.items (audio r));
})
Act-Exact s _ (takes r w e) clean x =
    let (rs, items, made) = take_request-eq-some s.worker w r e in
    rw made (record {
      room = x.room;
      pending = x.pending;
      exact = omega (arith, x.exact, ap total items);
      sized = Sized-tail r rs (subst Sized items x.sized);
      counted_sized = x.counted_sized;
      few = omega (arith, x.few, ap others items);
    })
Act-Exact s _ (acknowledges n h) clean x = record {
  room = x.room;
  pending = omega (arith, x.pending);
  exact = omega (arith, x.exact, h);
  sized = x.sized;
  counted_sized = x.counted_sized;
  few = x.few;
}
Act-Exact s _ (stops open_) clean x = record {
  room = x.room;
  pending = x.pending;
  exact = x.exact;
  sized = x.sized;
  counted_sized = x.counted_sized;
  few = ground (arith, x.few, open_);
}
Act-Exact s _ (ends w due e) clean x =
    rw (enqueue-eq-some (end_request true) s.worker w e)
      (put-Exact s (end_request true) false s.insisted x refl tt (ground (arith, x.few, due)))
Act-Exact s _ (insists w first e) clean x =
    rw (enqueue-eq-some stop_request s.worker w e)
      (put-Exact s stop_request s.ending true x refl tt (ground (arith, x.few, first)))
Act-Exact s _ (begins reset generation) clean x = record {
  room = x.room;
  pending = x.pending;
  exact = x.exact;
  sized = x.sized;
  counted_sized = x.counted_sized;
  few = x.few;
}
Act-Exact s _ (discards r w e) clean x = absurd (cc)
Act-Exact s _ clears clean x = absurd (cc)
Act-Exact s _ (resets w drained e) clean x = absurd (cc)

Reach-Exact : (s t : Requesting) → Reach s t → t.drained ≡ false → Exact s → Exact t
Reach-Exact s t here clean x = x
Reach-Exact s t (next {t = u} before act) clean x =
    Act-Exact u t act clean (Reach-Exact s u before (still_undrained u t act clean) x)

begin-Exact : (config : TransportConfig) → Exact (begin config)
begin-Exact config = record {
  room = refl;
  pending = omega arith;
  exact = omega arith;
  sized = tt;
  counted_sized = tt;
  few = omega arith;
}

-- In every state that the locked blocks, puts and gets of all threads reach in any order, with
-- chunks of one sample at least and one close, and in which nothing has begun to drain the
-- queue of requests, a put of any request finds room, so that none waits or raises; the count
-- of pending samples is exactly the samples in the queue, those taken and not acknowledged,
-- and those of the chunk counted and not yet put; and it is at most the limit.
pub never_full :
    (config : TransportConfig) (s : Requesting)
    → Reach (begin config) s
    → s.drained ≡ false
    → ((request : Request) → enqueue request s.worker ≢ none)
      × (s.worker.pending_samples
          ≡ total s.worker.requests.items + s.in_hand + counted_samples s.counted)
      × (s.worker.pending_samples ≤ limit s)
unfolding enqueue Queue.put_nowait
never_full config s reach clean =
    let x : Exact s = Reach-Exact (begin config) s reach clean (begin-Exact config) in
    let few : length s.worker.requests.items ≤ limit s + 2 =
      ground (arith, x.pending, x.exact, x.few, length-le-total s.worker.requests.items x.sized) in
    ((λ request e. ground (arith, few, x.room)), x.exact, x.pending)
