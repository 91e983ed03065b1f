-- ===== src/Plugin/Transport/Requests/Accepted.antt =====
-- The messages of a call against the server's checks.
use Prim.Native.Nat.{Ordering, compare}
use Prim.Native.Char.{Char, code, len_utf8, len_utf8_def, width}
use Prim.Native.String.len
use text.Mathlib.TextPositions.{len-append}
use text.Mathlib.TextLemmas.{append_cancel_left}
use vox_lattice.Base.{
  ◌↔◌, ℕ, ◌+◌, ◌-◌, ◌/◌, ◌%◌, ◌≤◌, ◌<◌, ◌≡◌, refl, ap, String, len, ◌<>◌, eq_iff, Bool, true, false,
  Bool-cases, not, ◌||◌, none, some, inl, inr, List, [], ◌∷◌, ◌==◌, arith, length, take,
  length-take, map,
}
use vox_lattice.Audio.Pcm.{Float32}
use vox_lattice.Protocol.{StartStream, ClientMessage, start, end_stream}
use vox_lattice.Server.Scheduler.{Stream}
use vox_lattice.Server.Service.{chunk_violation, counted}
use vox_lattice.Server.Start.{EntriesFit, IsStart, supplied, authenticated, text_value}
use vox_lattice.Plugin.Transport.{
  AudioRequest, Request, end_request, stop_request, reset_request, TransportConfig,
}
use vox_lattice.Plugin.Transport.Text.{truncate_utf8, truncate_utf8_lem}
use vox_lattice.Plugin.Transport.Requests.{
  set_item, truncated, start_metadata, start_message, iterate, request_iterator, call_metadata,
}

width-le : (o p q : Ordering) → (0 < width o p q) × (width o p q ≤ 4)
width-le Ordering.lt p q = omega arith
width-le Ordering.eq Ordering.lt q = omega arith
width-le Ordering.eq Ordering.eq Ordering.lt = omega arith
width-le Ordering.eq Ordering.eq Ordering.eq = omega arith
width-le Ordering.eq Ordering.eq Ordering.gt = omega arith
width-le Ordering.eq Ordering.gt Ordering.lt = omega arith
width-le Ordering.eq Ordering.gt Ordering.eq = omega arith
width-le Ordering.eq Ordering.gt Ordering.gt = omega arith
width-le Ordering.gt Ordering.lt q = omega arith
width-le Ordering.gt Ordering.eq Ordering.lt = omega arith
width-le Ordering.gt Ordering.eq Ordering.eq = omega arith
width-le Ordering.gt Ordering.eq Ordering.gt = omega arith
width-le Ordering.gt Ordering.gt Ordering.lt = omega arith
width-le Ordering.gt Ordering.gt Ordering.eq = omega arith
width-le Ordering.gt Ordering.gt Ordering.gt = omega arith

-- A character takes one to four bytes.
len_utf8-le : (c : Char) → (0 < len_utf8 c) × (len_utf8 c ≤ 4)
len_utf8-le c =
    rw (len_utf8_def c)
      (width-le (compare (code c) 128) (compare (code c) 2048) (compare (code c) 65536))

truncate_utf8_pos : (s : String) → 0 < len s → 0 < len (truncate_utf8 s 64)
unfolding truncate_utf8
truncate_utf8_pos String.[] h = absurd (omega (arith, len.nil))
truncate_utf8_pos (String.◌∷◌ c s) h =
    ground (arith, len_utf8-le c, len.cons c (truncate_utf8 s (64 - len_utf8 c)))

set_item-EntriesFit :
    (key value : String) (entries : List (String × String))
    → 0 < len key
    → len key ≤ 64
    → len value ≤ 256
    → EntriesFit entries
    → EntriesFit (set_item key value entries)
unfolding set_item
set_item-EntriesFit key value [] p k v h = (p, k, v, tt)
set_item-EntriesFit key value ((k', v') ∷ rest) p k v h =
    ground (arith, set_item-EntriesFit key value rest)

length-set_item :
    (key value : String) (entries : List (String × String))
    → length (set_item key value entries) ≤ length entries + 1
unfolding set_item
length-set_item key value [] = omega arith
length-set_item key value ((k, v) ∷ rest) = ground (arith, length-set_item key value rest)

truncated_lem :
    (entries items : List (String × String))
    → EntriesFit entries
    → EntriesFit (truncated entries items)
      × (length (truncated entries items) ≤ length entries + length items)
unfolding truncated
truncated_lem entries [] h = (h, omega arith)
truncated_lem entries ((key, value) ∷ items) h = elim (Bool-cases (len key == 0)) [
  | inl z ↦ let (fit, short) = truncated_lem entries items h in rw z (fit, omega (arith, short))
  | inr some_key ↦
      let key' = truncate_utf8 key 64 in
      let value' = truncate_utf8 value 256 in
      let h' : EntriesFit (set_item key' value' entries) =
        set_item-EntriesFit key' value' entries (truncate_utf8_pos key (ground arith))
          ((truncate_utf8_lem key 64).0) ((truncate_utf8_lem value 256).0) h in
      let (fit, short) = truncated_lem (set_item key' value' entries) items h' in
      rw some_key (fit, omega (arith, short, length-set_item key' value' entries))
]

-- The first message meets the protocol.
pub start_message-IsStart :
    (hex : String) (items : List (String × String)) (first : AudioRequest)
    → len hex ≤ 125
    → IsStart (start_message hex items first)
unfolding start_message start_metadata
start_message-IsStart hex items first h =
    let id : len ("lk-" <> hex) ≡ 3 + len hex = len-append "lk-" hex in
    let (fit, short) = truncated_lem [] (take 16 items) tt in
    record {
      version = refl;
      some_id = omega (arith, id);
      short_id = omega (arith, id, h);
      rate = refl;
      mono = refl;
      format = refl;
      entries = omega (arith, short, length-take 16 items);
      entries_fit = fit;
    }

pub start_message_start :
    (hex : String) (items : List (String × String)) (first : AudioRequest)
    → (start_message hex items first).input_start_sample ≡ first.start_sample
unfolding start_message
start_message_start hex items first = refl

-- A request that the server can take: at least one whole sample, and no more than the limit.
abbrev pub Sizes : ℕ → List (Request × Bool) → Type 0
Sizes max_chunk [] = Unit
Sizes max_chunk ((Request.audio r, reset) ∷ rest) =
    (0 < length r.pcm_s16le)
    × (length r.pcm_s16le % 2 ≡ 0)
    × (length r.pcm_s16le / 2 ≤ max_chunk)
    × Sizes max_chunk rest
Sizes max_chunk (_ ∷ rest) = Sizes max_chunk rest

module _ (f : Float32) {C : Type 0} where
  open f use {Value}

  -- The messages pass the reader's checks one after the other, and an end comes last.
  abbrev pub Passes : ℕ → Stream Value C → List ClientMessage → Type 0
  Passes max_chunk st [] = Unit
  Passes max_chunk st (ClientMessage.audio c ∷ rest) =
      (chunk_violation max_chunk c st.session ≡ none)
      × Passes max_chunk (counted f (length c.pcm_s16le / 2) st) rest
  Passes max_chunk st (end_stream _ ∷ rest) = rest ≡ []
  Passes max_chunk st (_ ∷ rest) = ⊥

  pub iterate-Passes :
      (max_chunk n a : ℕ) (st : Stream Value C) (rs : List (Request × Bool))
      → Sizes max_chunk rs
      → st.session.expected_sequence ≡ n
      → st.session.expected_input_sample ≡ a
      → Passes max_chunk st (iterate n a rs)
  unfolding iterate chunk_violation
  iterate-Passes max_chunk n a st [] h e g = tt
  iterate-Passes max_chunk n a st ((Request.audio r, reset) ∷ rest) h e g =
      elim (Bool-cases (not (r.start_sample == a) || reset)) [
        | inl stops ↦ rw stops tt
        | inr goes ↦ rw goes (
          ground arith,
          iterate-Passes max_chunk (n + 1) (a + length r.pcm_s16le / 2)
              (counted f (length r.pcm_s16le / 2) st) rest h.3 (omega arith) (omega arith),
        )
      ]
  iterate-Passes max_chunk n a st ((end_request flush, true) ∷ rest) h e g = tt
  iterate-Passes max_chunk n a st ((end_request flush, false) ∷ rest) h e g = refl
  iterate-Passes max_chunk n a st ((stop_request, reset) ∷ rest) h e g = tt
  iterate-Passes max_chunk n a st ((reset_request, reset) ∷ rest) h e g = tt

module _ (f : Float32) {C : Type 0} where
  open f use {Value}

  -- With a stream ID of at most 125 bytes after its prefix, and chunks of whole samples that
  -- are neither empty nor above the limit of the server, on a session that expects the first
  -- sample, the iterator sends a first message that meets the protocol at that sample,
  -- whatever the metadata, and then messages that pass the checks of the server one after
  -- another, with nothing after the end.
  pub request_iterator_lem :
      (max_chunk : ℕ) (st : Stream Value C) (hex : String) (items : List (String × String))
      (first : AudioRequest) (reset : Bool) (rest : List (Request × Bool))
      → len hex ≤ 125
      → Sizes max_chunk ((Request.audio first, reset) ∷ rest)
      → st.session.expected_sequence ≡ 0
      → st.session.expected_input_sample ≡ first.start_sample
      → (s : StartStream) × (messages : List ClientMessage) × (request_iterator hex items first
            reset rest
          ≡ start s ∷ messages)
        × (s.input_start_sample ≡ first.start_sample)
        × IsStart s
        × Passes f max_chunk st messages
  unfolding request_iterator
  request_iterator_lem max_chunk st hex items first reset rest short sizes sequence sample = (
    start_message hex items first,
    iterate 0 first.start_sample ((Request.audio first, reset) ∷ rest),
    refl,
    start_message_start hex items first,
    start_message-IsStart hex items first short,
    iterate-Passes f max_chunk 0 first.start_sample st ((Request.audio first, reset) ∷ rest) sizes
        sequence sample,
  )

call_metadata_lem :
    (config : TransportConfig) (api_key : String)
    → config.api_key ≡ some api_key
    → call_metadata config ≡ ("authorization", "Bearer " <> api_key) ∷ []
unfolding call_metadata
call_metadata_lem config api_key k = ground arith

supplied_lem :
    (lower : String → String) (config : TransportConfig) (api_key : String)
    → lower "authorization" ≡ "authorization"
    → config.api_key ≡ some api_key
    → supplied lower (map (λ e. (e.0, text_value e.1)) (call_metadata config))
      ≡ "Bearer " <> api_key
unfolding supplied
supplied_lem lower config api_key l k = rw (call_metadata_lem config api_key k, l) refl

-- For a function that leaves the text authorization in lower case, the server authenticates a
-- call with the metadata of the plugin exactly when the key of the plugin is the token of the
-- server.
pub authenticated_iff :
    (lower : String → String) (config : TransportConfig) (api_key api_token : String)
    → lower "authorization" ≡ "authorization"
    → config.api_key ≡ some api_key
    → (authenticated lower api_token (map (λ e. (e.0, text_value e.1)) (call_metadata config))
        ≡ true)
      ↔ (api_key ≡ api_token)
unfolding authenticated
authenticated_iff lower config api_key api_token l k =
    let same = supplied_lem lower config api_key l k in
    let texts = eq_iff ("Bearer " <> api_key) ("Bearer " <> api_token) in
    rw same (
      λ e. append_cancel_left "Bearer " api_key api_token (texts.0 e),
      λ e. texts.1 (ap (λ t. "Bearer " <> t) e),
    )
