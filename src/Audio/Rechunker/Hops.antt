-- ===== src/Audio/Rechunker/Hops.antt =====
-- Runs of hops without gap or overlap, and the audio that they carry.
use vox_lattice.Base.{
  ℕ, ◌+◌, ◌≤◌, ◌<◌, ◌≡◌, sym, ap, ◌∙◌, List, [], ◌∷◌, ◌++◌, append_assoc, append-nil, arith, length,
  take,
}
use vox_lattice.Audio.Rechunker.{SourceHop, hop_samples}

module _ {S : Type 0} where
  abbrev pub concat : List (List S) → List S
  concat [] = []
  concat (p ∷ ps) = p ++ concat ps

  pub concat-snoc : (ps : List (List S)) (p : List S) → concat (ps ++ p ∷ []) ≡ concat ps ++ p
  concat-snoc [] p = append-nil p
  concat-snoc (q ∷ ps) p = ap (λ t. q ++ t) (concat-snoc ps p) ∙ sym (append_assoc q (concat ps) p)

  -- A hop carries 1 to 256 valid samples in a frame of exactly 256.
  pub record IsHop (h : SourceHop S) : Type 0 where
    pub some_valid : 0 < h.valid_samples
    pub fits : h.valid_samples ≤ hop_samples
    pub framed : length h.samples ≡ hop_samples

  -- The hops cover the samples from `a` to `b`, each starting where the one before ends.
  abbrev pub Chain : ℕ → List (SourceHop S) → ℕ → Type 0
  Chain a [] b = a ≡ b
  Chain a (h ∷ hs) b = (h.start_sample ≡ a) × IsHop h × Chain (a + h.valid_samples) hs b

  -- Every sample of every hop is valid.
  abbrev pub AllFull : List (SourceHop S) → Type 0
  AllFull [] = Unit
  AllFull (h ∷ hs) = (h.valid_samples ≡ hop_samples) × AllFull hs

  abbrev pub valid_total : List (SourceHop S) → ℕ
  valid_total [] = 0
  valid_total (h ∷ hs) = h.valid_samples + valid_total hs

  -- The valid samples, in order.
  abbrev pub audio : List (SourceHop S) → List S
  audio [] = []
  audio (h ∷ hs) = take h.valid_samples h.samples ++ audio hs

module _ {S : Type 0} where
  pub Chain-append :
      (a b c : ℕ) (xs ys : List (SourceHop S)) → Chain a xs b → Chain b ys c → Chain a (xs ++ ys) c
  Chain-append a b c [] ys p q = rw p q
  Chain-append a b c (x ∷ xs) ys p q =
      (p.0, p.1, Chain-append (a + x.valid_samples) b c xs ys p.2 q)

  pub Chain-total : (a b : ℕ) (xs : List (SourceHop S)) → Chain a xs b → a + valid_total xs ≡ b
  Chain-total a b [] p = omega arith
  Chain-total a b (x ∷ xs) p = omega (arith, Chain-total (a + x.valid_samples) b xs p.2)
