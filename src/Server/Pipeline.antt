-- ===== src/Server/Pipeline.antt =====
-- services/fastenhancer-server/src/fastenhancer_server/pipeline.py. The model is an interface: `infer_batch`
-- on one stream, its first caches and the value of silence.
use vox_lattice.Base.{
  ℕ, ◌≡◌, refl, Bool, true, false, not, Option, none, some, List, [], ◌∷◌, take, length, replicate,
  length-replicate, ◌==◌, if◌then◌else◌, Result, ok, raise, ◌>>=◌, runtime_error, value_error,
}
use vox_lattice.Audio.Rechunker.{SourceHop, hop_samples}

pub record EnhancedHop (S : Type 0) : Type 0 where
  pub start_sample : ℕ
  pub samples : List S
  pub valid_samples : ℕ

pub record StreamingModel (S C : Type 0) : Type 0 where
  pub initial : C
  pub infer : List S → C → Result (List S × C)
  pub silence : S

pub record StreamingPipeline (S C : Type 0) : Type 0 where
  pub caches : C
  pub pending : Option (SourceHop S)
  pub is_closed : Bool

module _ {S C : Type 0} (model : StreamingModel S C) where
  unfoldable pub init : StreamingPipeline S C
  init = record { caches = model.initial; pending = none; is_closed = false }

  abbrev pub enhanced : List S → SourceHop S → EnhancedHop S
  enhanced wav h = record {
    start_sample = h.start_sample;
    samples = take h.valid_samples wav;
    valid_samples = h.valid_samples;
  }

  abbrev pub enhanced? : List S → Option (SourceHop S) → Option (EnhancedHop S)
  enhanced? wav none = none
  enhanced? wav (some previous) = some (enhanced wav previous)

  unfoldable pub push :
      SourceHop S → StreamingPipeline S C → Result (StreamingPipeline S C × Option (EnhancedHop S))
  push source p =
      if p.is_closed
      then raise (runtime_error "pipeline is closed")
      else if not (length source.samples == hop_samples)
      then raise (value_error "source hop must contain exactly 256 padded samples")
      else do
        (wav, caches) ← model.infer source.samples p.caches
        ok (
          record { caches = caches; pending = some source; is_closed = false },
          enhanced? wav p.pending,
        )

  unfoldable pub flush :
      StreamingPipeline S C → Result (StreamingPipeline S C × Option (EnhancedHop S))
  flush p = if p.is_closed then ok (p, none) else elim p.pending [
    | none ↦ ok (record p { is_closed = true }, none)
    | some pending ↦ do
      (wav, caches) ← model.infer (replicate hop_samples model.silence) p.caches
      ok (record { caches = caches; pending = none; is_closed = true }, some (enhanced wav pending))
  ]

  abbrev pub prepended : Option (EnhancedHop S) → List (EnhancedHop S) → List (EnhancedHop S)
  prepended none hops = hops
  prepended (some hop) hops = hop ∷ hops

  -- Every hop pushed in turn, and the flush: all that comes out.
  unfoldable pub enhance_all :
      List (SourceHop S) → StreamingPipeline S C → Result (List (EnhancedHop S))
  unfolding push flush
  enhance_all [] p = do (_, out) ← flush p; ok (prepended out [])
  enhance_all (h ∷ hs) p = do
    (p', out) ← push h p
    rest ← enhance_all hs p'
    ok (prepended out rest)

  -- What the model makes of inputs, one after another, from some caches.
  pub data Rows : C → List (List S) → List (List S) → Type 0 where
    stop : {c : C} → Rows c [] []
    step :
        {c : C} (x row : List S) (c' : C) {xs rows : List (List S)}
        → model.infer x c ≡ ok (row, c')
        → Rows c' xs rows
        → Rows c (x ∷ xs) (row ∷ rows)

  -- Each hop with the row that the model returned for the hop after it.
  abbrev pub aligned : List (SourceHop S) → List (List S) → List (EnhancedHop S)
  aligned [] rows = []
  aligned (h ∷ hs) [] = []
  aligned (h ∷ hs) (row ∷ rows) = enhanced row h ∷ aligned hs rows

  abbrev pub Full : List (SourceHop S) → Type 0
  Full [] = Unit
  Full (h ∷ hs) = (length h.samples ≡ hop_samples) × Full hs

  abbrev pub inputs : List (SourceHop S) → List (List S)
  inputs [] = replicate hop_samples model.silence ∷ []
  inputs (h ∷ hs) = h.samples ∷ inputs hs

  module _
      (returns : (x : List S) (c : C)
        → length x ≡ hop_samples
        → (row : List S) × (c' : C) × (model.infer x c ≡ ok (row, c'))) where
    enhance_all_pending :
        (hs : List (SourceHop S)) (h : SourceHop S) (c : C)
        → Full hs
        → (rows : List (List S)) × Rows c (inputs hs) rows
          × (enhance_all hs (record { caches = c; pending = some h; is_closed = false })
              ≡ ok (aligned (h ∷ hs) rows))
    unfolding enhance_all flush push
    enhance_all_pending [] h c full =
        let (row, c', ran) =
          returns (replicate hop_samples model.silence) c
            (length-replicate hop_samples model.silence) in
        (row ∷ [], step _ row c' ran stop, rw ran refl)
    enhance_all_pending (g ∷ hs) h c full =
        let (row, c', ran) = returns g.samples c full.0 in
        let (rows, related, same) = enhance_all_pending hs g c' full.1 in
        (row ∷ rows, step _ row c' ran related, rw full.0 (rw ran (rw same refl)))

    -- For a model that returns on every hop of 256 samples, pushing full hops, one at least,
    -- into a new pipeline and flushing it never fails, and gives each hop its start and valid
    -- samples with the row that the model returned for the input after it, the last one for
    -- silence.
    pub enhance_all-aligned :
        (h : SourceHop S) (hs : List (SourceHop S))
        → Full (h ∷ hs)
        → (row : List S) × (rows : List (List S)) × Rows model.initial
            (inputs (h ∷ hs))
            (row ∷ rows)
          × (enhance_all (h ∷ hs) init ≡ ok (aligned (h ∷ hs) rows))
    unfolding enhance_all push init
    enhance_all-aligned h hs full =
        let (row, c', ran) = returns h.samples model.initial full.0 in
        let (rows, related, same) = enhance_all_pending hs h c' full.1 in
        (row, rows, step _ row c' ran related, rw full.0 (rw ran (rw same refl)))
