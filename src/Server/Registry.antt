-- ===== src/Server/Registry.antt =====
-- service.py, `StreamRegistry`: the dictionary of active streams by their ID, under its lock. `K` is the
-- type of the IDs; a session is known by its `object_id`. A dictionary keeps the order of insertion.
pub mod Entries
pub mod Refines
use mathlib.Core.List.{lookup}
use vox_lattice.Base.{ℕ, String, none, some, List, [], ◌∷◌, ◌++◌, leb, ◌==◌, if◌then◌else◌, length}
use vox_lattice.Server.Metrics.{StatusCode, already_exists, resource_exhausted}

pub record StreamRegistry (K : Type 0) : Type 0 where
  pub max_active_streams : ℕ
  pub sessions : List (K × ℕ)

-- What `add` does: the session is in, or a `ProtocolViolation` is raised.
pub data Added (K : Type 0) : Type 0 where
  registered : StreamRegistry K → Added K
  refused : StatusCode → String → Added K

module _ {K : Type 0} (dec : Discrete K) where
  -- `del self._sessions[stream_id]`
  unfoldable pub delete : K → List (K × ℕ) → List (K × ℕ)
  delete k [] = []
  delete k (e ∷ es) = let rest = delete k es in elim (dec k e.0) [ yes _ ↦ es | no _ ↦ e ∷ rest ]

  unfoldable pub add : K → ℕ → StreamRegistry K → Added K
  add stream_id object_id r = elim (lookup dec stream_id r.sessions) [
    | some _ ↦ refused already_exists "stream ID is active"
    | none ↦
        if leb r.max_active_streams (length r.sessions)
        then refused resource_exhausted "maximum active streams reached"
        else registered (record r { sessions = r.sessions ++ (stream_id, object_id) ∷ [] })
  ]

  unfoldable pub remove : K → ℕ → StreamRegistry K → StreamRegistry K
  unfolding delete
  remove stream_id object_id r = elim (lookup dec stream_id r.sessions) [
    | none ↦ r
    | some found ↦
        if found == object_id then record r { sessions = delete stream_id r.sessions } else r
  ]
