-- ===== src/Server/System/Flow.antt =====
-- What is on its way through a stream: the audio from the pending hop through the work in flight,
-- the input queue and the reader's list to the rechunker, and the events that wait for the handler.
use vox_lattice.Base.{
  ℕ, ◌+◌, ◌*◌, ◌≤◌, ◌<◌, ◌≡◌, Bool, true, false, Option, none, some, List, [], ◌∷◌, ◌++◌, map,
  arith, length,
}
use vox_lattice.Audio.Rechunker.{SourceHop}
use vox_lattice.Audio.Rechunker.Hops.{IsHop, Chain}
use vox_lattice.Server.Session.{
  ModelWork, OutputEvent, output_audio, stream_completion, rpc_failure,
}
use vox_lattice.Server.Service.{
  Todo, put_source, finish_flush, put_no_flush, ServerMessage, enhanced_audio, stream_ended,
}

-- A piece of work, wherever it waits. `malformed` never occurs.
pub data Item (S : Type 0) : Type 0 where
  hop : SourceHop S → Item S
  flush no_flush malformed : Item S

module _ {S : Type 0} where
  abbrev pub item_of_flags : Bool → Bool → Option (SourceHop S) → Item S
  item_of_flags false false (some h) = hop h
  item_of_flags true false none = flush
  item_of_flags false true none = no_flush
  item_of_flags _ _ _ = malformed

  abbrev pub work_item : ModelWork S → Item S
  work_item w = item_of_flags w.terminal_flush w.terminal_no_flush w.source

  abbrev pub todo_item : Todo S → Item S
  todo_item (put_source h) = hop h
  todo_item finish_flush = flush
  todo_item (put_no_flush _) = no_flush

  abbrev pub option_items : Option (SourceHop S) → List (Item S)
  option_items none = []
  option_items (some h) = hop h ∷ []

  abbrev pub flight_items : Option (ModelWork S) → List (Item S)
  flight_items none = []
  flight_items (some w) = work_item w ∷ []

  -- The items carry the samples from `a` to `b` without gap or overlap; after the end of the input
  -- there is one last item, and a flush comes when the rechunker, with `pending` samples, is empty.
  abbrev pub Flow : ℕ → List (Item S) → ℕ → ℕ → Type 0
  Flow a [] b pending = a ≡ b
  Flow a (hop h ∷ r) b pending =
      (h.start_sample ≡ a) × IsHop h × Flow (a + h.valid_samples) r b pending
  Flow a (flush ∷ r) b pending = (r ≡ []) × (a ≡ b) × (pending ≡ 0)
  Flow a (no_flush ∷ r) b pending = (r ≡ []) × (a ≡ b)
  Flow a (malformed ∷ r) b pending = ⊥

  abbrev pub OnlyHops : List (Item S) → Type 0
  OnlyHops [] = Unit
  OnlyHops (hop _ ∷ r) = OnlyHops r
  OnlyHops (_ ∷ r) = ⊥

module _ {S : Type 0} where
  pub Flow-le : (a b p : ℕ) (xs : List (Item S)) → Flow a xs b p → a ≤ b
  Flow-le a b p [] h = omega arith
  Flow-le a b p (hop x ∷ xs) h = omega (arith, Flow-le (a + x.valid_samples) b p xs h.2)
  Flow-le a b p (flush ∷ xs) h = omega arith
  Flow-le a b p (no_flush ∷ xs) h = omega arith
  Flow-le a b p (malformed ∷ xs) h = absurd h

  pub OnlyHops-append : (xs ys : List (Item S)) → OnlyHops xs → OnlyHops ys → OnlyHops (xs ++ ys)
  OnlyHops-append [] ys h k = k
  OnlyHops-append (hop x ∷ xs) ys h k = OnlyHops-append xs ys h k
  OnlyHops-append (flush ∷ xs) ys h k = absurd h
  OnlyHops-append (no_flush ∷ xs) ys h k = absurd h
  OnlyHops-append (malformed ∷ xs) ys h k = absurd h

  -- New items go behind a flow of hops.
  pub Flow-append :
      (a b c p q : ℕ) (xs ys : List (Item S))
      → OnlyHops xs
      → Flow a xs b p
      → Flow b ys c q
      → Flow a (xs ++ ys) c q
  Flow-append a b c p q [] ys o h k = rw h k
  Flow-append a b c p q (hop x ∷ xs) ys o h k =
      (h.0, h.1, Flow-append (a + x.valid_samples) b c p q xs ys o h.2 k)
  Flow-append a b c p q (flush ∷ xs) ys o h k = absurd o
  Flow-append a b c p q (no_flush ∷ xs) ys o h k = absurd o
  Flow-append a b c p q (malformed ∷ xs) ys o h k = absurd o

  -- The hops of the rechunker are a flow of hops.
  pub Chain-Flow :
      (a b p : ℕ) (hs : List (SourceHop S))
      → Chain a hs b
      → Flow a (map todo_item (map put_source hs)) b p
        × OnlyHops (map todo_item (map put_source hs))
  Chain-Flow a b p [] h = (h, tt)
  Chain-Flow a b p (x ∷ hs) h =
      let (flow, only) = Chain-Flow (a + x.valid_samples) b p hs h.2 in ((h.0, h.1, flow), only)

-- The events that wait in the output queue continue the output from sample `a` to `b`, where the
-- stream's input began at `base`.
abbrev pub Events : ℕ → ℕ → List OutputEvent → ℕ → Type 0
Events base a [] b = a ≡ b
Events base a (output_audio start pcm valid ∷ r) b =
    (start ≡ a) × (0 < valid) × (length pcm ≡ valid * 2) × Events base (a + valid) r b
Events base a (stream_completion input output flushed ∷ r) b =
    (base + output ≡ a) × (flushed ≡ true → input ≡ output) × Events base a r b
Events base a (rpc_failure _ _ ∷ r) b = Events base a r b

pub Events-le : (base a b : ℕ) (es : List OutputEvent) → Events base a es b → a ≤ b
Events-le base a b [] h = omega arith
Events-le base a b (output_audio s p v ∷ es) h = omega (arith, Events-le base (a + v) b es h.3)
Events-le base a b (stream_completion i o f ∷ es) h = Events-le base a b es h.2
Events-le base a b (rpc_failure s d ∷ es) h = Events-le base a b es h

pub Events-append :
    (base a b c : ℕ) (es fs : List OutputEvent)
    → Events base a es b
    → Events base b fs c
    → Events base a (es ++ fs) c
Events-append base a b c [] fs h k = rw h k
Events-append base a b c (output_audio s p v ∷ es) fs h k =
    (h.0, h.1, h.2, Events-append base (a + v) b c es fs h.3 k)
Events-append base a b c (stream_completion i o f ∷ es) fs h k =
    (h.0, h.1, Events-append base a b c es fs h.2 k)
Events-append base a b c (rpc_failure s d ∷ es) fs h k = Events-append base a b c es fs h k

-- The messages sent so far: numbered from `n`, contiguous from sample `a` to `b`, each with two
-- bytes to a sample; a last message tells the samples sent, and after a flush that these are all.
abbrev pub Sent : ℕ → ℕ → ℕ → List ServerMessage → ℕ → ℕ → Type 0
Sent base n a [] m b = (n ≡ m) × (a ≡ b)
Sent base n a (enhanced_audio sequence start pcm valid ∷ r) m b =
    (sequence ≡ n)
    × (start ≡ a)
    × (0 < valid)
    × (length pcm ≡ valid * 2)
    × Sent base (n + 1) (a + valid) r m b
Sent base n a (stream_ended input output flushed ∷ r) m b =
    (r ≡ []) × (n ≡ m) × (a ≡ b) × (base + output ≡ a) × (flushed ≡ true → input ≡ output)

-- No last message was sent yet.
abbrev pub Open : List ServerMessage → Type 0
Open [] = Unit
Open (enhanced_audio _ _ _ _ ∷ r) = Open r
Open (stream_ended _ _ _ ∷ r) = ⊥

pub Sent-append :
    (base n a m b k c : ℕ) (xs ys : List ServerMessage)
    → Open xs
    → Sent base n a xs m b
    → Sent base m b ys k c
    → Sent base n a (xs ++ ys) k c
Sent-append base n a m b k c [] ys o h t = rw (h.0, h.1) t
Sent-append base n a m b k c (enhanced_audio q s p v ∷ xs) ys o h t =
    (h.0, h.1, h.2, h.3, Sent-append base (n + 1) (a + v) m b k c xs ys o h.4 t)
Sent-append base n a m b k c (stream_ended i o f ∷ xs) ys e h t = absurd e

pub Open-snoc :
    (xs : List ServerMessage) (n s : ℕ) (p : List ℕ) (v : ℕ)
    → Open xs
    → Open (xs ++ enhanced_audio n s p v ∷ [])
Open-snoc [] n s p v o = tt
Open-snoc (enhanced_audio _ _ _ _ ∷ xs) n s p v o = Open-snoc xs n s p v o
Open-snoc (stream_ended _ _ _ ∷ xs) n s p v o = absurd o

pub Sent-le : (base n a m b : ℕ) (xs : List ServerMessage) → Sent base n a xs m b → a ≤ b
Sent-le base n a m b [] h = omega arith
Sent-le base n a m b (enhanced_audio q s p v ∷ xs) h =
    omega (arith, Sent-le base (n + 1) (a + v) m b xs h.4)
Sent-le base n a m b (stream_ended i o f ∷ xs) h = omega arith
