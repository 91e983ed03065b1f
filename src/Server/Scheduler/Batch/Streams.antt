-- ===== src/Server/Scheduler/Batch/Streams.antt =====
-- Each stream of a batch on its own, and the size of a batch.
use vox_lattice.Base.{
  ℕ, ◌≤◌, ◌<◌, ◌≡◌, ◌≢◌, refl, sym, ap, ◌∙◌, Bool, Bool-cases, inl, inr, Option, none, some, List,
  [], ◌∷◌, ◌++◌, length, length-append, append_assoc, append-nil, take, take_of_length-le,
  take-append_of_le, ltb, arith,
}
use vox_lattice.Server.Session.{ModelWork}
use vox_lattice.Server.Scheduler.{
  Stream, fail, notify, complete, emit_previous, apply_result, drain_output,
}
use vox_lattice.Server.Session.{emit_nowait, cancel}
use vox_lattice.Audio.Rechunker.{SourceHop}
use vox_lattice.Server.Scheduler.Batch.{
  BatchScheduler, done, gather, stream_of, put_back, apply_all,
}
use vox_lattice.Server.Scheduler.Batch.Independence.{Alike, apply_result-Alike}

-- No work of the session is in the batch.
abbrev pub Absent : {S : Type 0} → ℕ → List (ℕ × ModelWork S) → Type 0
Absent id [] = Unit
Absent id ((i, _) ∷ active) = (id ≢ i) × Absent id active

module _ {S C : Type 0} where
  closing-emit_previous :
      (pcm : List ℕ) (o : Option (SourceHop S)) (st : Stream S C)
      → (emit_previous pcm o st).0.closing ≡ st.closing
  unfolding emit_previous emit_nowait fail cancel drain_output
  closing-emit_previous pcm none st = refl
  closing-emit_previous pcm (some p) st = ground arith

  closing-notify : (st : Stream S C) → (notify st).0.closing ≡ st.closing
  unfolding notify
  closing-notify st = ground arith

  closing-complete :
      (flushed : Bool) (st : Stream S C) → (complete flushed st).0.closing ≡ st.closing
  unfolding complete emit_nowait fail cancel drain_output
  closing-complete flushed st = ground arith

  closing-apply_result :
      (work : ModelWork S) (pcm : List ℕ) (updated : C) (st : Stream S C)
      → (apply_result work pcm updated st).0.closing ≡ st.closing
  unfolding apply_result
  closing-apply_result work pcm updated st =
      grind (arith, closing-emit_previous, closing-notify, closing-complete)

  apply_all-Absent :
      (id : ℕ) (active : List (ℕ × ModelWork S)) (results : List (List ℕ × C))
      (b : BatchScheduler S C)
      → Absent id active
      → (apply_all active results b).0.sessions id ≡ b.sessions id
  unfolding apply_all
  apply_all-Absent id [] results b h = refl
  apply_all-Absent id ((i, work) ∷ active) [] b h =
      ground (arith, apply_all-Absent id active [] b h.1)
  apply_all-Absent id ((i, work) ∷ active) ((pcm, updated) ∷ results) b h =
      let st = (apply_result work pcm updated (stream_of i b)).0 in
      ground (arith, h.0, apply_all-Absent id active results (put_back i st b) h.1)

  -- When the loop over a batch after its inference ends without an exception, the session of
  -- each stream that has one work in it is what the step for one stream makes of that session,
  -- its own PCM and its own new caches, alone, whatever the other streams of the batch are.
  pub apply_all-Alike :
      (id : ℕ) (work : ModelWork S) (pcm : List ℕ) (updated : C)
      (before after : List (ℕ × ModelWork S)) (first rest : List (List ℕ × C))
      (b : BatchScheduler S C)
      → length first ≡ length before
      → Absent id before
      → Absent id after
      → (apply_all (before ++ (id, work) ∷ after) (first ++ (pcm, updated) ∷ rest) b).1 ≡ done
      → (apply_all (before ++ (id, work) ∷ after) (first ++ (pcm, updated) ∷ rest) b).0.sessions id
        ≡ (apply_result work pcm updated (stream_of id b)).0.session
  unfolding apply_all
  apply_all-Alike id work pcm updated [] after [] rest b size no_before no_after ok_ =
      let st = (apply_result work pcm updated (stream_of id b)).0 in
      ground (arith, ok_, apply_all-Absent id after rest (put_back id st b) no_after)
  apply_all-Alike id work pcm updated [] after (r ∷ first) rest b size no_before no_after ok_ =
      absurd (omega (arith, size))
  apply_all-Alike id work pcm updated (a ∷ before) after [] rest b size no_before no_after ok_ =
      absurd (omega (arith, size))
  apply_all-Alike id work pcm updated ((i, w) ∷ before) after ((p, u) ∷ first) rest b size no_before
        no_after ok_ =
      let b' = put_back i (apply_result w p u (stream_of i b)).0 b in
      let ok' : (apply_all (before ++ (id, work) ∷ after) (first ++ (pcm, updated) ∷ rest) b').1
          ≡ done =
        ground (arith, ok_) in
      let same : Alike (stream_of id b') (stream_of id b) = record {
        session = ground (arith, no_before.0);
        closing = closing-apply_result w p u (stream_of i b);
      } in
      ground (
        arith,
        ok_,
        apply_all-Alike id work pcm updated before after first rest b' (omega (arith, size))
            no_before.1 no_after ok',
        (apply_result-Alike work pcm updated _ _ same).session,
      )

-- The sessions that come before the first timeout.
abbrev pub arrived : List (Option ℕ) → List ℕ
arrived [] = []
arrived (none ∷ _) = []
arrived (some session ∷ later) = session ∷ arrived later

whole : (n : ℕ) (sessions : List ℕ) → length sessions ≤ n → sessions ≡ take n (sessions ++ [])
whole n sessions h = sym (ap (take n) (append-nil sessions) ∙ take_of_length-le n sessions h)

gather_from :
    (n : ℕ) (sessions : List ℕ) (later : List (Option ℕ))
    → length sessions ≤ n
    → gather n sessions later ≡ take n (sessions ++ arrived later)
unfolding gather
gather_from n sessions [] h = whole n sessions h
gather_from n sessions (none ∷ later) h = whole n sessions h
gather_from n sessions (some s ∷ later) h = elim (Bool-cases (ltb (length sessions) n)) [
  | inl room ↦
      let size = length-append sessions (s ∷ []) in
      rw room (
        gather_from n (sessions ++ s ∷ []) later (ground (arith, size, room))
        ∙ ap (take n) (append_assoc sessions (s ∷ []) (arrived later)))
  | inr full ↦ rw full (
      sym (
        take-append_of_le n sessions (s ∷ arrived later) (ground (arith, full, h))
        ∙ take_of_length-le n sessions h))
]

-- With a batch size of one at least, the batch is the first session and those that come before
-- the first timeout, in their order, cut to the batch size.
pub gather_lem :
    (max_batch_size first : ℕ) (later : List (Option ℕ))
    → 0 < max_batch_size
    → gather max_batch_size (first ∷ []) later ≡ take max_batch_size (first ∷ arrived later)
gather_lem n first later some_room = gather_from n (first ∷ []) later (omega (arith, some_room))
