-- ===== src/Server/Caches/Examples.antt =====
-- Tests of the caches on tensors that are lists of entries along the one dimension that varies.
use vox_lattice.Base.{
  ℕ, ◌+◌, ◌*◌, ◌≤◌, ◌<◌, ◌≡◌, refl, String, Bool, true, false, List, [], ◌∷◌, map, length,
  length-append, length-take, length-drop, take, drop, replicate, ◌==◌, if◌then◌else◌, ok, ◌>>=◌,
  arith,
}
use vox_lattice.Server.Caches.{
  Axis, rows, columns, dim, shape_of, All, concat, Torch, StreamCaches, layout_error, assert_layout,
  every, first_error, combine_stream_caches, caches_from, split_stream_caches,
}
use vox_lattice.Server.Caches.Layout.{Laid}
use vox_lattice.Server.Caches.RoundTrip.{split-combine}
use vox_lattice.Server.Caches.Infer.{Network, infer_batch, checked_output, split_output}
use vox_lattice.Server.Caches.Infer.Checked.{Inferred, infer_batch-Inferred}

record Tensor : Type 0 where
  is_middle : Bool
  width : ℕ
  entries : List ℕ

shape : Tensor → List ℕ
shape t =
    if t.is_middle then 1 ∷ length t.entries ∷ t.width ∷ [] else length t.entries ∷ t.width ∷ []

width_of_first : List Tensor → ℕ
width_of_first [] = 0
width_of_first (t ∷ _) = t.width

cat : ℕ → List Tensor → Tensor
cat d ts = record {
  is_middle = d == 1;
  width = width_of_first ts;
  entries = concat (map (λ t. t.entries) ts);
}

-- The shape tells the number of entries, and the rest.
shape_lem :
    (a : Axis) (n : ℕ) (t : Tensor)
    → shape t ≡ shape_of a n
    → (length t.entries ≡ n)
      × (t.is_middle ≡ (dim a == 1))
      × (shape_of a n ≡ shape_of (if t.is_middle then columns t.width else rows t.width) n)
unfolding shape
shape_lem (rows w) n t e = ground (arith, e)
shape_lem (columns w) n t e = ground (arith, e)

length-concat :
    (a : Axis) (n : ℕ) (device : String) (ts : List Tensor)
    → All (λ t. (shape t ≡ shape_of a n) × ("cuda" ≡ device)) ts
    → length (concat (map (λ t. t.entries) ts)) ≡ length ts * n
length-concat a n device [] h = omega arith
length-concat a n device (t ∷ ts) h = grind (
  arith,
  length-append t.entries (concat (map (λ u. u.entries) ts)),
  (shape_lem a n t h.0.0).0,
  length-concat a n device ts h.1,
)

shape-cat :
    (a : Axis) (n : ℕ) (device : String) (ts : List Tensor)
    → 0 < length ts
    → All (λ t. (shape t ≡ shape_of a n) × ("cuda" ≡ device)) ts
    → shape (cat (dim a) ts) ≡ shape_of a (length ts * n)
unfolding shape cat width_of_first
shape-cat (rows w) n device [] some_ts h = absurd (omega (arith, some_ts))
shape-cat (columns w) n device [] some_ts h = absurd (omega (arith, some_ts))
shape-cat (rows w) n device (t ∷ ts) some_ts h =
    ground (arith, h.0.0, length-concat (rows w) n device (t ∷ ts) h)
shape-cat (columns w) n device (t ∷ ts) some_ts h =
    ground (arith, h.0.0, length-concat (columns w) n device (t ∷ ts) h)

slices-cat :
    (a : Axis) (n : ℕ) (device : String) (ts : List Tensor)
    → All (λ t. (shape t ≡ shape_of a n) × ("cuda" ≡ device)) ts
    → (cat (dim a) ts).entries ≡ concat (map (λ t. t.entries) ts)
unfolding cat
slices-cat a n device ts h = refl

shape-narrow :
    (a : Axis) (n start count : ℕ) (t : Tensor)
    → shape t ≡ shape_of a n
    → start + count ≤ n
    → shape (record t { entries = take count (drop start t.entries) }) ≡ shape_of a count
unfolding shape
shape-narrow (rows w) n start count t e room =
    ground (arith, e, room, length-take count (drop start t.entries), length-drop start t.entries)
shape-narrow (columns w) n start count t e room =
    ground (arith, e, room, length-take count (drop start t.entries), length-drop start t.entries)

same_entries : (s t : Tensor) → shape s ≡ shape t → s.entries ≡ t.entries → s ≡ t
unfolding shape
same_entries s t e h =
    let same : (s.is_middle ≡ t.is_middle) × (s.width ≡ t.width) = ground (arith, e, h) in
    rw (same.0, same.1, h) refl

abbrev lists : Torch
lists = record {
  Tensor = Tensor;
  Slice = ℕ;
  shape = shape;
  is_float32 = λ t. true;
  device_type = λ t. "cuda";
  cat = cat;
  narrow = λ d start count t. record t { entries = take count (drop start t.entries) };
  slices = λ d t. t.entries;
  length-slices = λ a n t e. (shape_lem a n t e).0;
  slices-cat = slices-cat;
  shape-cat = shape-cat;
  is_float32-cat = λ d ts some_ts h. refl;
  slices-narrow = λ d start count t. refl;
  shape-narrow = shape-narrow;
  is_float32-narrow = λ d start count t. refl;
  same_slices = λ d s t e some_entries h. same_entries s t e h;
}

-- Caches filled with one number each.
abbrev cache : ℕ → StreamCaches lists
cache n = record {
  stft = record { is_middle = false; width = 256; entries = n ∷ [] };
  istft = record { is_middle = false; width = 256; entries = (n + 1) ∷ [] };
  rnn = (
    record { is_middle = true; width = 36; entries = replicate 24 n },
    record { is_middle = true; width = 36; entries = replicate 24 (n + 1) },
    record { is_middle = true; width = 36; entries = replicate 24 (n + 2) },
  );
}

cache-Laid : (n : ℕ) → Laid lists 1 (cache n)
unfolding shape
cache-Laid n = record {
  stft = refl;
  istft = refl;
  rnn0 = refl;
  rnn1 = refl;
  rnn2 = refl;
  float = (refl, refl, refl, refl, refl);
}

split-combine_example :
    (combine_stream_caches lists (cache 1 ∷ cache 5 ∷ [])
      >>= (λ whole. split_stream_caches lists whole 2))
    ≡ ok (cache 1 ∷ cache 5 ∷ [])
split-combine_example = split-combine lists "cuda" (cache 1) (cache 5 ∷ []) (
  (cache-Laid 1, (refl, refl, refl, refl, refl)),
  ((cache-Laid 5, (refl, refl, refl, refl, refl)), tt),
)

-- A network that returns what it is given.
abbrev echo : Network lists
echo = record {
  transform = λ wav c. (wav, c);
  inverse = λ spec c. (spec, c);
  network = λ spec rnn. (spec, rnn.0 ∷ rnn.1 ∷ rnn.2 ∷ []);
  to_device = λ t. t;
  to_device_float = λ t. t;
  all_finite = λ t. true;
  initial_transform = ((cache 0).stft, (cache 0).istft);
  initial_states = (cache 0).rnn.0 ∷ (cache 0).rnn.1 ∷ (cache 0).rnn.2 ∷ [];
  zeros = λ n. record { is_middle = false; width = 256; entries = replicate n 0 };
  on_own_device = λ t. true;
}

abbrev hops : Tensor
hops = record { is_middle = false; width = 256; entries = 7 ∷ 8 ∷ [] }

inferred : infer_batch lists echo hops (cache 1 ∷ cache 5 ∷ []) ≡ ok (hops, cache 1 ∷ cache 5 ∷ [])
unfolding infer_batch checked_output split_output combine_stream_caches split_stream_caches
    caches_from assert_layout first_error layout_error every shape cat width_of_first
inferred = refl

infer_batch-Inferred_example :
    (0 < 2)
    × All (Laid lists 1) (cache 1 ∷ cache 5 ∷ [])
    × Inferred lists echo 2 (hops, cache 1 ∷ cache 5 ∷ [])
infer_batch-Inferred_example =
    infer_batch-Inferred lists echo hops (cache 1 ∷ cache 5 ∷ []) (hops, cache 1 ∷ cache 5 ∷ [])
      inferred
