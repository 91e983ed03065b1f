-- ===== src/Timeline/ContiguousPcm.antt =====
-- packages/livekit-plugins-fastenhancer/livekit/plugins/fastenhancer/timeline.py, `ContiguousPCM`:
-- a gapless run of raw 16-bit samples that starts at an absolute sample number. A bytearray is a
-- list of numbers; two bytes are a sample.
pub mod Window
use vox_lattice.Base.{
  ℕ, ◌+◌, ◌-◌, ◌*◌, ◌/◌, ◌%◌, min, List, [], ◌++◌, ◌||◌, not, Result, ok, raise, value_error,
  key_error, ltb, ◌==◌, if◌then◌else◌, length, take, drop,
}

pub record ContiguousPcm : Type 0 where
  pub start_sample : ℕ
  pub bytes : List ℕ

-- `__init__`
abbrev pub init : ℕ → ContiguousPcm
init start_sample = record { start_sample = start_sample; bytes = [] }

unfoldable pub end_sample : ContiguousPcm → ℕ
end_sample c = c.start_sample + length c.bytes / 2

unfoldable pub append : ℕ → List ℕ → ContiguousPcm → Result ContiguousPcm
unfolding end_sample
append start_sample pcm_s16le c =
    if not (start_sample == end_sample c)
    then raise (value_error "raw PCM append is not contiguous")
    else if not (length pcm_s16le % 2 == 0)
    then raise (value_error "PCM must have an even byte length")
    else ok (record c { bytes = c.bytes ++ pcm_s16le })

unfoldable pub read : ℕ → ℕ → ContiguousPcm → Result (List ℕ)
unfolding end_sample
read start_sample sample_count c =
    if ltb start_sample c.start_sample || ltb (end_sample c) (start_sample + sample_count)
    then raise (key_error "requested raw range is unavailable")
    else (let begin = (start_sample - c.start_sample) * 2 in
        ok (take (sample_count * 2) (drop begin c.bytes)))

-- `max(0, a - b)` is the subtraction of the natural numbers.
unfoldable pub discard_before : ℕ → ContiguousPcm → ContiguousPcm
discard_before sample c =
    let remove_samples = min (sample - c.start_sample) (length c.bytes / 2) in
    if not (remove_samples == 0)
    then record {
      start_sample = c.start_sample + remove_samples;
      bytes = drop (remove_samples * 2) c.bytes;
    }
    else c

unfoldable pub clear_at : ℕ → ContiguousPcm → ContiguousPcm
clear_at start_sample c = record { start_sample = start_sample; bytes = [] }
