-- ===== src/Writer/Hex.antt =====
-- `decodeHexKey` of internal/plugins/aip2p/writer_registry.go.
use ai_p2p.Prelude.{
  ℕ, ◌+◌, ◌-◌, ◌*◌, ◌&&◌, List, [], ◌∷◌, Option, none, some, leb, ◌==◌, if◌then◌else◌, length,
}
use ai_p2p.Text.{Text, trim_space, to_lower}

-- A digit of `hex.DecodeString`, in either case.
hex_digit : ℕ → Option ℕ
hex_digit c =
    if leb b'0' c && leb c b'9'
    then some (c - b'0')
    else if leb b'a' c && leb c b'f'
    then some (c - b'a' + 10)
    else if leb b'A' c && leb c b'F'
    then some (c - b'A' + 10)
    else none

abbrev hex_byte : Option ℕ → Option ℕ → Option (List ℕ) → Option (List ℕ)
hex_byte (some hi) (some lo) (some bytes) = some ((16 * hi + lo) ∷ bytes)
hex_byte _ _ _ = none

-- `hex.DecodeString`: an odd length or another character is an error.
unfoldable pub decode_hex : Text → Option (List ℕ)
unfolding hex_digit
decode_hex [] = some []
decode_hex (c ∷ []) = none
decode_hex (c ∷ d ∷ s) = hex_byte (hex_digit c) (hex_digit d) (decode_hex s)

unfoldable pub decode_hex_key : Text → ℕ → Option (List ℕ)
decode_hex_key raw size = elim (decode_hex (to_lower (trim_space raw))) [
  | none ↦ none
  | some value ↦ if length value == size then some value else none
]
