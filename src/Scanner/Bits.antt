-- ===== src/Scanner/Bits.antt =====
-- src/scanner/bits.rs: the decoders of SSZ bit sequences.
-- `hex::decode` is a third-party crate and is a parameter.
use Prim.Native.Char.{code}
mod Value
pub mod Encoding
pub mod Examples
use dabeacon_indexer.Prelude.{
  ℕ, zero, suc, ◌+◌, ◌-◌, ◌/◌, ◌%◌, ◌^◌, ◌==◌, ltb, if◌then◌else◌, Bool, ◌&&◌, String, List, [],
  ◌∷◌, ◌++◌, Option, none, some, ◌≡◌, refl,
}
use dabeacon_indexer.Error.{Result, ok, err, ok_or, ◌>>=◌, inconsistent_beacon_data}

-- `str::trim_start_matches("0x")`: every leading "0x" goes.
unfoldable pub trim_start_0x : String → String
trim_start_0x String.[] = String.[]
trim_start_0x (String.◌∷◌ c String.[]) = String.◌∷◌ c String.[]
trim_start_0x (String.◌∷◌ c (String.◌∷◌ d s)) =
    if code c == b'0' && code d == b'x' then trim_start_0x s else String.◌∷◌ c (String.◌∷◌ d s)

-- `(byte >> bit_idx) & 1 == 1`.
abbrev pub bit : ℕ → ℕ → Bool
bit byte bit_idx = byte / 2 ^ bit_idx % 2 == 1

-- Bits `from, from + 1, ..` of a byte, `count` of them.
unfoldable pub bits_from : ℕ → ℕ → ℕ → List Bool
bits_from byte from zero = []
bits_from byte from (suc count) = bit byte from ∷ bits_from byte (from + 1) count

unfoldable pub byte_bits : List ℕ → List Bool
byte_bits [] = []
byte_bits (byte ∷ bytes) = bits_from byte 0 8 ++ byte_bits bytes

-- `u8::leading_zeros` of a byte that is not 0 is 7 minus the position of its highest one.
leading_zeros_from : ℕ → ℕ → ℕ
leading_zeros_from zero byte = 0
leading_zeros_from (suc width) byte =
    let rest = leading_zeros_from width byte in if ltb byte (2 ^ width) then suc rest else 0

unfoldable pub leading_zeros : ℕ → ℕ
unfolding leading_zeros_from
leading_zeros byte = leading_zeros_from 8 byte

-- The bytes before the last one, and the last one.
push_front : ℕ → Option (List ℕ × ℕ) → Option (List ℕ × ℕ)
push_front byte none = some ([], byte)
push_front byte (some (front, last)) = some (byte ∷ front, last)

unfoldable pub split_last : List ℕ → Option (List ℕ × ℕ)
unfolding push_front
split_last [] = none
split_last (byte ∷ rest) = push_front byte (split_last rest)

-- The bytes before the last in full, then the bits of the last one below its sentinel.
unfoldable pub bitlist_bits : Option (List ℕ × ℕ) → Result (List Bool)
bitlist_bits none = err inconsistent_beacon_data
bitlist_bits (some (front, last_byte)) =
    if last_byte == 0
    then err inconsistent_beacon_data
    else let sentinel_pos = 7 - leading_zeros last_byte in
      ok (byte_bits front ++ bits_from last_byte 0 sentinel_pos)

module _ (hex_decode : String → Option (List ℕ)) where
  unfoldable pub decode_bitlist : String → Result (List Bool)
  decode_bitlist hex_str =
      ok_or inconsistent_beacon_data (hex_decode (trim_start_0x hex_str)) >>= λ bytes.
      bitlist_bits (split_last bytes)

  unfoldable pub decode_bitvector : String → Result (List Bool)
  decode_bitvector hex_str =
      ok_or inconsistent_beacon_data (hex_decode (trim_start_0x hex_str)) >>= λ bytes.
      ok (byte_bits bytes)
