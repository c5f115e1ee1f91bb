-- ===== src/Scanner/Bits/Examples.antt =====
-- src/scanner/bits.rs on concrete inputs, with a concrete function in place of `hex::decode`.
use Prim.Native.Char.{Char, code}
use dabeacon_indexer.Prelude.{
  ℕ, ◌+◌, ◌-◌, ◌*◌, ◌<◌, leb, if◌then◌else◌, Bool, true, false, ◌&&◌, String, List, [], ◌∷◌, Option,
  none, some, length, get_elem?, ◌≡◌, ◌↔◌, refl, arith,
}
use mathlib.Core.Option
use dabeacon_indexer.Error.{ok}
use dabeacon_indexer.Scanner.Bits.{decode_bitlist, decode_bitvector, bit, trim_start_0x}
use dabeacon_indexer.Scanner.Bits.Encoding.{
  encode_bitlist, decode_bitlist_iff, decode_bitvector-layout,
}

hex_digit : Char → Option ℕ
hex_digit c =
    if leb b'0' (code c) && leb (code c) b'9'
    then some (code c - b'0')
    else if leb b'a' (code c) && leb (code c) b'f'
    then some (code c - b'a' + 10)
    else none

push_byte : Option ℕ → Option ℕ → Option (List ℕ) → Option (List ℕ)
push_byte (some high) (some low) (some bytes) = some ((16 * high + low) ∷ bytes)
push_byte _ _ _ = none

unfoldable pub hex_decode : String → Option (List ℕ)
unfolding hex_digit push_byte
hex_decode String.[] = some []
hex_decode (String.◌∷◌ c String.[]) = none
hex_decode (String.◌∷◌ c (String.◌∷◌ d s)) = push_byte (hex_digit c) (hex_digit d) (hex_decode s)

-- The attestation's bits 1, 0, 1, with the sentinel behind them.
decode_bitlist_iff_example :
    (decode_bitlist hex_decode "0x0d" ≡ ok (true ∷ false ∷ true ∷ []))
    ↔ (13 ∷ [] ≡ encode_bitlist (true ∷ false ∷ true ∷ []))
unfolding hex_decode trim_start_0x
decode_bitlist_iff_example =
    decode_bitlist_iff hex_decode "0x0d" (13 ∷ []) (true ∷ false ∷ true ∷ []) refl (omega arith, tt)

decode_bitvector-layout_example :
    (bits : List Bool) × (decode_bitvector hex_decode "0x05" ≡ ok bits)
    × (length bits ≡ 8 * length {A = ℕ} (5 ∷ []))
    × ((i j : ℕ)
        → j < 8
        → get_elem? bits (8 * i + j) ≡ Option.map (λ b. bit b j) (get_elem? {A = ℕ} (5 ∷ []) i))
unfolding hex_decode trim_start_0x
decode_bitvector-layout_example = decode_bitvector-layout hex_decode "0x05" (5 ∷ []) refl
