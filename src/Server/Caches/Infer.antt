-- ===== src/Server/Caches/Infer.antt =====
-- model.py, `FastEnhancerBStreamingModel.initialize_stream`, `infer_batch` and `warm_up`.
pub mod Checked
use vox_lattice.Base.{
  ℕ, zero, suc, ◌+◌, ◌*◌, ◌≤◌, ◌<◌, ◌≡◌, refl, sym, ap, ◌∙◌, String, str_eq, Bool, true, false,
  Bool-cases, not, ◌||◌, Option, none, some, Option-cases, inl, inr, List, [], ◌∷◌, length, ◌==◌,
  if◌then◌else◌, Result, ok, raise, ◌>>=◌, >>=-eq-ok, runtime_error, value_error, index_error,
  arith, replicate,
}
use vox_lattice.Audio.Rechunker.{hop_samples}
use vox_lattice.Server.Caches.{
  rf_freq, rf_hidden, Axis, rows, columns, dim, shape_of, All, Torch, StreamCaches, same_shape,
  layout_error, first_error, assert_layout, combine_stream_caches, cache_at, caches_from,
  split_stream_caches,
}
use vox_lattice.Server.Caches.Layout.{
  Laid, OnDevice, first_error_iff, layout_error_device_iff, same_shape_iff,
}

-- What the model calls of the network: the transform and its inverse with their caches, the network with
-- the states that it returns beside its output, the moves to the device, and the initial caches.
pub record Network (torch : Torch) : Type 0 where
  pub transform : torch.Tensor → torch.Tensor → torch.Tensor × torch.Tensor
  pub inverse : torch.Tensor → torch.Tensor → torch.Tensor × torch.Tensor
  pub network :
      torch.Tensor → torch.Tensor × torch.Tensor × torch.Tensor → torch.Tensor × List torch.Tensor
  pub to_device : torch.Tensor → torch.Tensor
  pub to_device_float : torch.Tensor → torch.Tensor
  pub all_finite : torch.Tensor → Bool
  pub initial_transform : torch.Tensor × torch.Tensor
  pub initial_states : List torch.Tensor
  pub zeros : (rows : ℕ) → torch.Tensor
  pub on_own_device : torch.Tensor → Bool

module _ (torch : Torch) (net : Network torch) where
  open torch use {Tensor, shape}
  open net use {transform, inverse, network, to_device, to_device_float, all_finite}

  -- `rnn[0]`, `rnn[1]` and `rnn[2]`
  abbrev pub first_three : List Tensor → Result (Tensor × Tensor × Tensor)
  first_three (a ∷ b ∷ c ∷ _) = ok (a, b, c)
  first_three _ = raise index_error

  unfoldable pub initialize_stream : Result (StreamCaches torch)
  unfolding assert_layout
  initialize_stream =
      if not (length net.initial_states == 3)
      then raise (runtime_error "model returned an unexpected number of RNN caches")
      else do
        rnn ← first_three net.initial_states
        assert_layout torch 1 (some "cuda")
            (record { stft = net.initial_transform.0; istft = net.initial_transform.1; rnn = rnn })

  abbrev pub moved : StreamCaches torch → StreamCaches torch
  moved c = record {
    stft = to_device c.stft;
    istft = to_device c.istft;
    rnn = (to_device c.rnn.0, to_device c.rnn.1, to_device c.rnn.2);
  }

  -- The inference itself: the audio, the new caches of the transforms and the states.
  abbrev pub forward : Tensor → StreamCaches torch → Tensor × Tensor × Tensor × List Tensor
  forward wav_hops c =
      let (spec, stft) = transform (to_device_float wav_hops) c.stft in
      let (spec_out, rnn) = network spec c.rnn in
      let (wav_out, istft) = inverse spec_out c.istft in (wav_out, stft, istft, rnn)

  -- The new caches, each for its stream.
  unfoldable pub split_output :
      ℕ → Tensor → Tensor → Tensor → List Tensor → Result (Tensor × List (StreamCaches torch))
  split_output batch_size wav_out stft istft states = do
    rnn ← first_three states
    updated ←
        assert_layout torch batch_size (some "cuda")
          (record { stft = stft; istft = istft; rnn = rnn })
    caches ← split_stream_caches torch updated batch_size
    ok (wav_out, caches)

  -- The checks of what the model returned.
  unfoldable pub checked_output :
      ℕ → Tensor × Tensor × Tensor × List Tensor → Result (Tensor × List (StreamCaches torch))
  unfolding split_output
  checked_output batch_size (wav_out, stft, istft, states) =
      if not (same_shape torch (shape wav_out) (batch_size ∷ hop_samples ∷ []))
      then raise (runtime_error "model returned an invalid waveform shape")
      else if not (all_finite wav_out)
      then raise (runtime_error "model produced NaN or infinity")
      else split_output batch_size wav_out stft istft states

  unfoldable pub infer_batch :
      Tensor → List (StreamCaches torch) → Result (Tensor × List (StreamCaches torch))
  unfolding checked_output
  infer_batch wav_hops stream_caches =
      let batch_size = length stream_caches in
      if not (same_shape torch (shape wav_hops) (batch_size ∷ hop_samples ∷ []))
      then raise (value_error "wav_hops must have shape [batch, 256]")
      else do
        combined ← combine_stream_caches torch stream_caches
        checked_output batch_size (forward wav_hops (moved combined))

  -- `[self.initialize_stream() for _ in range(batch_size)]`
  unfoldable pub initialized : ℕ → Result (List (StreamCaches torch))
  initialized zero = ok []
  initialized (suc n) = do c ← initialize_stream; cs ← initialized n; ok (c ∷ cs)

  unfoldable pub warm_up : List ℕ → Result Bool
  unfolding initialized infer_batch
  warm_up [] = ok true
  warm_up (batch_size ∷ batch_sizes) = do
    caches ← initialized batch_size
    (output, updated) ← infer_batch (net.zeros batch_size) caches
    _ ←
        (if not (net.on_own_device output) || not (length updated == batch_size)
          then raise (runtime_error "CUDA warm-up validation failed")
          else ok true)
    warm_up batch_sizes
