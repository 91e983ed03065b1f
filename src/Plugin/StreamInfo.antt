-- ===== src/Plugin/StreamInfo.antt =====
-- processor.py, `_on_stream_info_updated` and `_on_stream_info_cleared`: the metadata dictionary, a list of
-- entries, between two calls of the provider.
use vox_lattice.Base.{
  ◌≡◌, refl, ◌≢◌, String, str_eq, eq_iff, false, Option, none, some, List, [], ◌∷◌, if◌then◌else◌,
  arith,
}
use vox_lattice.Plugin.Transport.Text.{truncate_utf8}
use vox_lattice.Plugin.Transport.Requests.{set_item}

abbrev pub Entries : Type 0
Entries = List (String × String)

-- `d.get(key)`
unfoldable pub lookup : String → Entries → Option String
lookup key [] = none
lookup key ((k, v) ∷ rest) = if str_eq k key then some v else lookup key rest

-- `d.pop(key, None)`; a key occurs once at most, and here every occurrence goes.
unfoldable pub pop : String → Entries → Entries
pop key [] = []
pop key ((k, v) ∷ rest) = let rest' = pop key rest in if str_eq k key then rest' else (k, v) ∷ rest'

unfoldable pub stream_info_updated :
    (room_name participant_identity publication_sid : String) → Entries → Entries
stream_info_updated room_name participant_identity publication_sid d =
    set_item "publication_sid" (truncate_utf8 publication_sid 256) (
      set_item "participant_identity" (truncate_utf8 participant_identity 256)
        (set_item "room_name" (truncate_utf8 room_name 256) d))

unfoldable pub stream_info_cleared : Entries → Entries
stream_info_cleared d = pop "publication_sid" (pop "participant_identity" (pop "room_name" d))

lookup-set_item :
    (k key v : String) (d : Entries)
    → lookup k (set_item key v d) ≡ (if str_eq key k then some v else lookup k d)
unfolding lookup set_item
lookup-set_item k key v [] = refl
lookup-set_item k key v ((k', v') ∷ rest) =
    ground (arith, eq_iff k' key, eq_iff k' k, eq_iff key k, lookup-set_item k key v rest)

lookup-pop :
    (k key : String) (d : Entries)
    → lookup k (pop key d) ≡ (if str_eq key k then none else lookup k d)
unfolding lookup pop
lookup-pop k key [] = ground arith
lookup-pop k key ((k', v') ∷ rest) =
    ground (arith, eq_iff k' key, eq_iff k' k, eq_iff key k, lookup-pop k key rest)

-- The three names are found under their keys, cut to 256 bytes.
pub stream_info_updated_lem :
    (room participant sid : String) (d : Entries)
    → (lookup "room_name" (stream_info_updated room participant sid d)
        ≡ some (truncate_utf8 room 256))
      × (lookup "participant_identity" (stream_info_updated room participant sid d)
          ≡ some (truncate_utf8 participant 256))
      × (lookup "publication_sid" (stream_info_updated room participant sid d)
          ≡ some (truncate_utf8 sid 256))
unfolding stream_info_updated
stream_info_updated_lem room participant sid d =
    (simp (lookup-set_item), simp (lookup-set_item), simp (lookup-set_item))

other_key : (k key : String) → k ≢ key → str_eq key k ≡ false
other_key k key h = ground (arith, eq_iff key k)

-- Clearing after an update removes the three keys, and every other key is as before the update.
pub cleared-updated :
    (room participant sid key : String) (d : Entries)
    → key ≢ "room_name"
    → key ≢ "participant_identity"
    → key ≢ "publication_sid"
    → (lookup "room_name" (stream_info_cleared (stream_info_updated room participant sid d)) ≡ none)
      × (lookup "participant_identity"
            (stream_info_cleared (stream_info_updated room participant sid d))
          ≡ none)
      × (lookup "publication_sid" (stream_info_cleared (stream_info_updated room participant sid d))
          ≡ none)
      × (lookup key (stream_info_cleared (stream_info_updated room participant sid d))
          ≡ lookup key d)
unfolding stream_info_cleared stream_info_updated
cleared-updated room participant sid key d r p s = (
  simp (lookup-pop),
  simp (lookup-pop),
  simp (lookup-pop),
  simp (lookup-pop, lookup-set_item, other_key key _ r, other_key key _ p, other_key key _ s),
)
