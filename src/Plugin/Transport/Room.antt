-- ===== src/Plugin/Transport/Room.antt =====
-- The size of the worker's queue of requests, which is the limit on samples and four more: the steps of
-- LiveKit's thread, of the worker's and of grpc's in any order, and the count that bounds the queue. A step
-- is one `put`, one `get`, the setting of one event, or the lines under the lock. LiveKit's thread sends one
-- chunk at a time and closes a worker once.
pub mod Bound
use vox_lattice.Base.{
  ℕ, ◌+◌, ◌-◌, ◌/◌, ◌≤◌, ◌≡◌, Bool, true, false, Option, none, some, List, [], ◌∷◌, ◌++◌,
  if◌then◌else◌, arith, length,
}
use vox_lattice.Plugin.Transport.{
  AudioRequest, Request, audio, end_request, stop_request, reset_request, TransportConfig,
  GrpcWorker, init, enqueue, count_samples, clear_pending, take_request, acknowledge,
}

-- The worker with the chunk that `try_send` has counted and not yet put; the samples that were taken from
-- the queue and are not acknowledged; whether `close` has set `_stop` and not yet put the `EndRequest`;
-- whether it has put a `StopRequest`; and whether `_drain_requests` was ever begun.
pub record Requesting : Type 0 where
  pub worker : GrpcWorker
  pub counted : Option AudioRequest
  pub in_hand : ℕ
  pub ending : Bool
  pub insisted : Bool
  pub drained : Bool

abbrev pub begin : TransportConfig → Requesting
begin config = record {
  worker = init config;
  counted = none;
  in_hand = 0;
  ending = false;
  insisted = false;
  drained = false;
}

abbrev pub samples_of : Request → ℕ
samples_of (audio r) = length r.pcm_s16le / 2
samples_of _ = 0

pub data Act (s : Requesting) : Requesting → Type 0 where
  counts :
      (r : AudioRequest) (w : GrpcWorker)
      → s.counted ≡ none
      → 1 ≤ length r.pcm_s16le / 2
      → count_samples (length r.pcm_s16le / 2) s.worker ≡ some w
      → Act s (record s { worker = w; counted = some r })
  puts :
      (r : AudioRequest) (w : GrpcWorker)
      → s.counted ≡ some r
      → enqueue (audio r) s.worker ≡ some w
      → Act s (record s { worker = w; counted = none })
  takes :
      (request : Request) (w : GrpcWorker)
      → take_request s.worker ≡ some (request, w)
      → Act s (record s { worker = w; in_hand = s.in_hand + samples_of request })
  acknowledges :
      (n : ℕ)
      → n ≤ s.in_hand
      → Act s (record s { worker = acknowledge n s.worker; in_hand = s.in_hand - n })
  stops :
      s.worker.stop ≡ false
      → Act s (record s { worker = record s.worker { stop = true }; ending = true })
  ends :
      (w : GrpcWorker)
      → s.ending ≡ true
      → enqueue (end_request true) s.worker ≡ some w
      → Act s (record s { worker = w; ending = false })
  insists :
      (w : GrpcWorker)
      → s.insisted ≡ false
      → enqueue stop_request s.worker ≡ some w
      → Act s (record s { worker = w; insisted = true })
  -- a generation begins, or a reset
  begins :
      (reset : Bool) (generation : ℕ)
      → Act s (record s { worker = record s.worker { reset = reset; generation = generation } })
  -- `_drain_requests`, and the end of a reset
  discards :
      (request : Request) (w : GrpcWorker)
      → take_request s.worker ≡ some (request, w)
      → Act s (record s { worker = w; drained = true })
  clears : Act s (record s { worker = clear_pending s.worker; drained = true })
  resets :
      (w : GrpcWorker)
      → s.drained ≡ true
      → enqueue reset_request s.worker ≡ some w
      → Act s (record s { worker = w })

pub data Reach (s : Requesting) : Requesting → Type 0 where
  here : Reach s s
  next : {t u : Requesting} → Reach s t → Act t u → Reach s u

abbrev pub total : List Request → ℕ
total [] = 0
total (r ∷ rs) = samples_of r + total rs

abbrev pub other : Request → ℕ
other (audio _) = 0
other _ = 1

abbrev pub others : List Request → ℕ
others [] = 0
others (r ∷ rs) = other r + others rs

-- Each chunk has one sample at least.
abbrev pub Sized : List Request → Type 0
Sized [] = Unit
Sized (audio r ∷ rs) = (1 ≤ length r.pcm_s16le / 2) × Sized rs
Sized (_ ∷ rs) = Sized rs

pub total-snoc : (rs : List Request) (r : Request) → total (rs ++ r ∷ []) ≡ total rs + samples_of r
total-snoc [] r = omega arith
total-snoc (x ∷ rs) r = omega (arith, total-snoc rs r)

pub others-snoc : (rs : List Request) (r : Request) → others (rs ++ r ∷ []) ≡ others rs + other r
others-snoc [] r = omega arith
others-snoc (x ∷ rs) r = omega (arith, others-snoc rs r)

pub Sized-snoc :
    (rs : List Request) (r : Request) → Sized rs → Sized (r ∷ []) → Sized (rs ++ r ∷ [])
Sized-snoc [] r h k = k
Sized-snoc (audio x ∷ rs) r h k = (h.0, Sized-snoc rs r h.1 k)
Sized-snoc (end_request _ ∷ rs) r h k = Sized-snoc rs r h k
Sized-snoc (stop_request ∷ rs) r h k = Sized-snoc rs r h k
Sized-snoc (reset_request ∷ rs) r h k = Sized-snoc rs r h k

-- One sample at least pays for each chunk.
pub length-le-total : (rs : List Request) → Sized rs → length rs ≤ total rs + others rs
length-le-total [] h = omega arith
length-le-total (audio x ∷ rs) h = omega (arith, length-le-total rs h.1)
length-le-total (end_request _ ∷ rs) h = omega (arith, length-le-total rs h)
length-le-total (stop_request ∷ rs) h = omega (arith, length-le-total rs h)
length-le-total (reset_request ∷ rs) h = omega (arith, length-le-total rs h)

abbrev pub one_if : Bool → ℕ
one_if b = if b then 1 else 0

abbrev pub limit : Requesting → ℕ
limit s = s.worker.config.max_request_queue_samples

abbrev pub counted_samples : Option AudioRequest → ℕ
counted_samples none = 0
counted_samples (some r) = length r.pcm_s16le / 2

abbrev pub CountedSized : Option AudioRequest → Type 0
CountedSized none = Unit
CountedSized (some r) = 1 ≤ length r.pcm_s16le / 2
