-- ===== src/Server/Call.antt =====
-- service.py, `Enhance` from the token to the first answer: `_require_auth`, the first message, the new
-- session and its place in the registry; and `GetCapabilities`.
use mathlib.Core.Path.{subst}
use vox_lattice.Base.{
  ℕ, ◌+◌, ◌≤◌, ◌≡◌, refl, String, true, not, Bool-cases, Option-cases, ap, ◌∙◌, ◌⊎◌, inl, inr, List,
  [], ◌∷◌, length, length-append, if◌then◌else◌, Exn, Result, ok, raise, Result-cases, ◌>>=◌, arith,
}
use vox_lattice.Protocol.{
  StartStream, ClientMessage, start, audio, end_stream, no_body, StreamAccepted,
}
use vox_lattice.Server.Metrics.{
  StatusCode, failed_precondition, deadline_exceeded, unauthenticated, ServerMetrics, inc,
}
use vox_lattice.Server.Registry
use vox_lattice.Server.Registry.{StreamRegistry, Added, registered, refused}
use vox_lattice.Server.Session
use vox_lattice.Server.Session.{StreamSession}
use vox_lattice.Server.Start.{
  MetadataValue, authenticated, ModelInfo, capabilities, queue_hops, Checked, passed, violates,
  validate_start, start_violation, validate_start_iff, IsStart,
}

-- What the wait for the first message gives.
pub data First : Type 0 where
  gives : ClientMessage → First
  ends late : First

-- The service, with what it reads of its settings and of the model. `C` is the type of caches.
pub record EnhancementService (C : Type 0) : Type 0 where
  pub api_token : String
  pub max_pending_audio_ms_per_stream : ℕ
  pub max_output_audio_ms_per_stream : ℕ
  pub max_audio_chunk_samples : ℕ
  pub model : ModelInfo
  pub initialize_stream : Result C
  pub registry : StreamRegistry String
  pub metrics : ServerMetrics

-- How the call goes on: it is aborted, an exception leaves it, or a stream is open and its first answer
-- sent.
pub data Opening (S C : Type 0) : Type 0 where
  aborted : StatusCode → String → Opening S C
  left_by : Exn → Opening S C
  opened : StreamSession S C → StreamAccepted → Opening S C

passed_start :
    (m : ClientMessage) (s : StartStream) → validate_start m ≡ passed s → (m ≡ start s) × IsStart s
unfolding validate_start
passed_start (start s') s e = elim (Option-cases (start_violation s')) [
  | inl good ↦
      let same : s' ≡ s = ground (arith, e, good) in
      (
        ap start same,
        (validate_start_iff s).0 (subst (λ x. validate_start (start x) ≡ passed s) same e),
      )
  | inr (bad, is_bad) ↦ absurd (ground (arith, e, is_bad))
]
passed_start (audio _) s e = cc
passed_start (end_stream _) s e = cc
passed_start no_body s e = cc

Checked-cases :
    {A : Type 0} (c : Checked A)
    → ((x : A) × (c ≡ passed x))
      ⊎ ((status : StatusCode) × (detail : String) × (c ≡ violates status detail))
Checked-cases (passed x) = inl (x, refl)
Checked-cases (violates status detail) = inr (status, detail, refl)

module _ (dec : Discrete String) (lower : String → String) {S C : Type 0} where
  -- The `except ProtocolViolation`.
  unfoldable pub rejected :
      StatusCode → String → EnhancementService C → EnhancementService C × Opening S C
  rejected status detail service = (
    record service {
      metrics = record service.metrics {
        protocol_errors = status ∷ service.metrics.protocol_errors;
        stream_rejections = status ∷ service.metrics.stream_rejections;
      };
    },
    aborted status detail,
  )

  -- The registration of the new session, and the answer.
  unfoldable pub registers :
      StreamSession S C → EnhancementService C → EnhancementService C × Opening S C
  unfolding rejected Registry.add inc
  registers session service =
      elim (Registry.add dec session.stream_id session.object_id service.registry) [
        | refused status detail ↦ rejected status detail service
        | registered registry ↦ (
          record service {
            registry = registry;
            metrics = record service.metrics {
              active_streams = inc 1 service.metrics.active_streams;
              streams_opened = service.metrics.streams_opened + 1;
            };
          },
          opened session (capabilities service.model service.max_audio_chunk_samples),
        )
      ]

  -- The new session for an accepted start. `object_id` is fresh.
  unfoldable pub session_for : ℕ → StartStream → EnhancementService C → Result (StreamSession S C)
  unfolding queue_hops
  session_for object_id s service = do
    caches ← service.initialize_stream
    Session.init object_id s.stream_id s.input_start_sample caches
        (queue_hops service.max_pending_audio_ms_per_stream)
        (queue_hops service.max_output_audio_ms_per_stream)

  unfoldable pub accept_first :
      ℕ → First → EnhancementService C → EnhancementService C × Opening S C
  unfolding registers session_for validate_start
  accept_first object_id ends service =
      (service, aborted failed_precondition "StartStream is required")
  accept_first object_id late service =
      (service, aborted deadline_exceeded "stream start timed out")
  accept_first object_id (gives message) service = elim (validate_start message) [
    | violates status detail ↦ rejected status detail service
    | passed s ↦ elim (session_for object_id s service) [
      | raise exception ↦ (service, left_by exception)
      | ok session ↦ registers session service
    ]
  ]

  unfoldable pub open_call :
      ℕ
      → List (String × MetadataValue)
      → First
      → EnhancementService C
      → EnhancementService C × Opening S C
  unfolding accept_first
  open_call object_id metadata first service =
      if not (authenticated lower service.api_token metadata)
      then (
        record service {
          metrics = record service.metrics { auth_failures = service.metrics.auth_failures + 1 };
        },
        aborted unauthenticated "authentication required",
      )
      else accept_first object_id first service

  registers-opened :
      (session session' : StreamSession S C) (service service' : EnhancementService C)
      (a : StreamAccepted)
      → registers session service ≡ (service', opened session' a)
      → (session ≡ session')
        × (a ≡ capabilities service.model service.max_audio_chunk_samples)
        × (length service'.registry.sessions ≡ length service.registry.sessions + 1)
        × (length service'.registry.sessions ≤ service.registry.max_active_streams)
        × (service'.metrics.active_streams.added ≡ service.metrics.active_streams.added + 1)
  unfolding registers rejected Registry.add inc
  registers-opened session session' service service' a e = ground (
    arith,
    e,
    length-append service.registry.sessions ((session.stream_id, session.object_id) ∷ []),
  )

  -- What an open stream tells of its call.
  pub record Opened (object_id : ℕ) (metadata : List (String × MetadataValue)) (first : First)
      (service service' : EnhancementService C) (session : StreamSession S C) (a : StreamAccepted)
      : Type 0 where
    pub known : authenticated lower service.api_token metadata ≡ true
    pub start_stream : StartStream
    pub is_first : first ≡ gives (start start_stream)
    pub valid : IsStart start_stream
    pub made : session_for object_id start_stream service ≡ ok session
    pub answer : a ≡ capabilities service.model service.max_audio_chunk_samples
    pub one_more : length service'.registry.sessions ≡ length service.registry.sessions + 1
    pub bounded : length service'.registry.sessions ≤ service.registry.max_active_streams
    pub counted : service'.metrics.active_streams.added ≡ service.metrics.active_streams.added + 1

  accept_first-Opened :
      (object_id : ℕ) (metadata : List (String × MetadataValue)) (first : First)
      (service service' : EnhancementService C) (session : StreamSession S C) (a : StreamAccepted)
      → authenticated lower service.api_token metadata ≡ true
      → accept_first object_id first service ≡ (service', opened session a)
      → Opened object_id metadata first service service' session a
  unfolding accept_first rejected
  accept_first-Opened object_id metadata ends service service' session a known e = cc
  accept_first-Opened object_id metadata late service service' session a known e = cc
  accept_first-Opened object_id metadata (gives m) service service' session a known e =
      elim (Checked-cases (validate_start m)) [
        | inr (status, detail, bad) ↦ absurd (ground (arith, e, bad))
        | inl (s, good) ↦ elim (Result-cases (session_for object_id s service)) [
          | inr (x, bad) ↦ absurd (ground (arith, e, good, bad))
          | inl (made, is_made) ↦
              let in_registry : registers made service ≡ (service', opened session a) =
                ground (arith, e, good, is_made) in
              let (same, answer, one_more, bounded, counted) =
                registers-opened made session service service' a in_registry in
              let (is_start, valid) = passed_start m s good in
              record {
                known = known;
                start_stream = s;
                is_first = ap gives is_start;
                valid = valid;
                made = is_made ∙ ap ok same;
                answer = answer;
                one_more = one_more;
                bounded = bounded;
                counted = counted;
              }
        ]
      ]

  -- When a call opens a stream, its token was right and its first message a StartStream that
  -- meets the protocol, the session is the new one for it, the answer tells the capabilities
  -- of the model, one more stream is registered, within the limit, and counted as active.
  pub open_call-Opened :
      (object_id : ℕ) (metadata : List (String × MetadataValue)) (first : First)
      (service service' : EnhancementService C) (session : StreamSession S C) (a : StreamAccepted)
      → open_call object_id metadata first service ≡ (service', opened session a)
      → Opened object_id metadata first service service' session a
  unfolding open_call
  open_call-Opened object_id metadata first service service' session a e =
      elim (Bool-cases (authenticated lower service.api_token metadata)) [
        | inr unknown ↦ absurd (ground (arith, e, unknown))
        | inl known ↦
            accept_first-Opened object_id metadata first service service' session a known
              (ground (arith, e, known))
      ]
