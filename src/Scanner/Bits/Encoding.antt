-- ===== src/Scanner/Bits/Encoding.antt =====
-- The SSZ encoding of bit sequences, as the consensus specification describes it, against the
-- decoders of src/scanner/bits.rs.
use dabeacon_indexer.Prelude.{
  ℕ, zero, suc, ◌+◌, ◌-◌, ◌*◌, ◌<◌, ◌==◌, Bool, true, List, [], ◌∷◌, ◌++◌, ◌≡◌, refl, sym, ap, ◌∙◌,
  arith, length, length-append, get_elem?, get_elem?-append_left, get_elem?-append_right, All,
  subst, Option, none, some, String, ◌↔◌, Bool-cases, inl, inr,
}
use dabeacon_indexer.Error.{ok, ok-injective}
use dabeacon_indexer.Scanner.Bits.{
  bit, bits_from, byte_bits, leading_zeros, split_last, push_front, bitlist_bits, decode_bitlist,
  trim_start_0x, decode_bitvector,
}
use dabeacon_indexer.Scanner.Bits.Value.{
  value, bits_from-value, value-bits_from, sentinel_position, length-bits_from, highest_bit,
}
use mathlib.Core.List.{append_assoc}
use mathlib.Core.Option

-- Eight bits to a byte, the lowest first; the last byte has a set bit above the data.
unfoldable pub encode_bitlist : List Bool → List ℕ
encode_bitlist (a ∷ b ∷ c ∷ d ∷ e ∷ f ∷ g ∷ h ∷ rest) =
    value (a ∷ b ∷ c ∷ d ∷ e ∷ f ∷ g ∷ h ∷ []) ∷ encode_bitlist rest
encode_bitlist bits = value (bits ++ true ∷ []) ∷ []

abbrev pub IsByte : ℕ → Type 0
IsByte byte = byte < 256

-- A full byte in front goes to the front of the decoded bits.
bitlist_bits-push :
    (byte : ℕ) (o : Option (List ℕ × ℕ)) (bits : List Bool)
    → bitlist_bits o ≡ ok bits
    → bitlist_bits (push_front byte o) ≡ ok (bits_from byte 0 8 ++ bits)
unfolding bitlist_bits push_front byte_bits
bitlist_bits-push byte none bits h = cc
bitlist_bits-push byte (some (front, last)) bits h = ground (
  arith,
  append_assoc (bits_from byte 0 8) (byte_bits front) (bits_from last 0 (7 - leading_zeros last)),
)

decode-last_byte :
    (bits : List Bool)
    → length bits < 8
    → bitlist_bits (split_last (value (bits ++ true ∷ []) ∷ [])) ≡ ok bits
unfolding bitlist_bits split_last byte_bits
decode-last_byte bits short =
    rw ((sentinel_position bits short).0, (sentinel_position bits short).1)
      (ap ok (bits_from-value bits (true ∷ [])))

pub decode-encode : (bits : List Bool) → bitlist_bits (split_last (encode_bitlist bits)) ≡ ok bits
unfolding encode_bitlist split_last
decode-encode (a ∷ b ∷ c ∷ d ∷ e ∷ f ∷ g ∷ h ∷ rest) =
    bitlist_bits-push _ (split_last (encode_bitlist rest)) rest (decode-encode rest)
    ∙ ap (λ (t : List Bool). ok (t ++ rest))
        (bits_from-value (a ∷ b ∷ c ∷ d ∷ e ∷ f ∷ g ∷ h ∷ []) [])
decode-encode bits = decode-last_byte bits (omega arith)

encode-short :
    (bits : List Bool) → length bits < 8 → encode_bitlist bits ≡ value (bits ++ true ∷ []) ∷ []
unfolding encode_bitlist
encode-short (a ∷ b ∷ c ∷ d ∷ e ∷ f ∷ g ∷ h ∷ rest) short = absurd (omega arith)
encode-short bits short = refl

encode-byte :
    (byte : ℕ) (bits : List Bool)
    → byte < 256
    → encode_bitlist (bits_from byte 0 8 ++ bits) ≡ byte ∷ encode_bitlist bits
unfolding encode_bitlist bits_from
encode-byte byte bits small =
    ap (λ (t : ℕ). t ∷ encode_bitlist bits) (value-bits_from byte 8 [] (omega arith))

-- What decoding a pushed byte says of the bytes behind it.
bitlist_bits-push_inv :
    (byte last : ℕ) (front : List ℕ) (bits : List Bool)
    → bitlist_bits (push_front byte (some (front, last))) ≡ ok bits
    → (rest : List Bool) × (bits ≡ bits_from byte 0 8 ++ rest)
      × (bitlist_bits (some (front, last)) ≡ ok rest)
unfolding bitlist_bits push_front byte_bits
bitlist_bits-push_inv byte last front bits h = (
  byte_bits front ++ bits_from last 0 (7 - leading_zeros last),
  ground (
    arith,
    append_assoc (bits_from byte 0 8) (byte_bits front) (bits_from last 0 (7 - leading_zeros last)),
  ),
  ground arith,
)

last_byte-encode :
    (last : ℕ) (bits : List Bool)
    → last < 256
    → bitlist_bits (some ([], last)) ≡ ok bits
    → encode_bitlist bits ≡ last ∷ []
unfolding bitlist_bits byte_bits
last_byte-encode last bits small h = elim (Bool-cases (last == 0)) [
  | inl is_zero ↦ cc (rw is_zero at h)
  | inr nonzero ↦
      subst (λ bs. encode_bitlist bs ≡ last ∷ []) (ok-injective (rw nonzero at h))
        (encode-short _ (rw (length-bits_from last 0 _) (highest_bit last small nonzero).1)
          ∙ ap (λ (t : ℕ). t ∷ [])
              (value-bits_from last _ (true ∷ []) (sym (highest_bit last small nonzero).0)))
]

push_front-some :
    (byte : ℕ) (o : Option (List ℕ × ℕ)) → (p : List ℕ × ℕ) × (push_front byte o ≡ some p)
unfolding push_front
push_front-some byte none = (([], byte), refl)
push_front-some byte (some (front, last)) = ((byte ∷ front, last), refl)

encode-pushed :
    (byte : ℕ) (o : Option (List ℕ × ℕ)) (p : List ℕ × ℕ) (bytes : List ℕ) (bits : List Bool)
    → byte < 256
    → o ≡ some p
    → ((bs : List Bool) → bitlist_bits o ≡ ok bs → encode_bitlist bs ≡ bytes)
    → bitlist_bits (push_front byte o) ≡ ok bits
    → encode_bitlist bits ≡ byte ∷ bytes
encode-pushed byte none p bytes bits small e ih h = cc
encode-pushed byte (some (front, last)) p bytes bits small e ih h =
    let inverse = bitlist_bits-push_inv byte last front bits h in
    ap encode_bitlist inverse.1
    ∙ (encode-byte byte inverse.0 small ∙ ap (◌∷◌ byte) (ih inverse.0 inverse.2))

pub encode-decode :
    (bytes : List ℕ) (bits : List Bool)
    → All IsByte bytes
    → bitlist_bits (split_last bytes) ≡ ok bits
    → encode_bitlist bits ≡ bytes
unfolding split_last
encode-decode [] bits small h = absurd (empty_fails h)
  where
    empty_fails : bitlist_bits none ≡ ok bits → ⊥
    empty_fails e = unfold bitlist_bits in cc e
encode-decode (byte ∷ []) bits small h = last_byte-encode byte bits small.0 (unfold push_front in h)
encode-decode (byte ∷ next ∷ rest) bits small h =
    let pushed = push_front-some next (split_last rest) in
    encode-pushed byte _ pushed.0 (next ∷ rest) bits small.0 pushed.1
      (λ bs. encode-decode (next ∷ rest) bs small.1) h

-- The decoder accepts the SSZ encodings and nothing else: where `hex::decode` yields bytes,
-- `decode_bitlist` returns some bits exactly when those bytes are the encoding of these bits.
pub decode_bitlist_iff :
    (hex_decode : String → Option (List ℕ)) (hex_str : String) (bytes : List ℕ) (bits : List Bool)
    → hex_decode (trim_start_0x hex_str) ≡ some bytes
    → All IsByte bytes
    → (decode_bitlist hex_decode hex_str ≡ ok bits) ↔ (bytes ≡ encode_bitlist bits)
unfolding decode_bitlist
decode_bitlist_iff hex_decode hex_str bytes bits read small = rw read (
  λ h. sym (encode-decode bytes bits small h),
  λ e. ap (λ (b : List ℕ). bitlist_bits (split_last b)) e ∙ decode-encode bits,
)

length-byte_bits : (bytes : List ℕ) → length (byte_bits bytes) ≡ 8 * length bytes
unfolding byte_bits
length-byte_bits [] = refl
length-byte_bits (byte ∷ bytes) = omega (
  arith,
  length-append (bits_from byte 0 8) (byte_bits bytes),
  length-bits_from byte 0 8,
  length-byte_bits bytes,
)

get_elem?-bits_from : (v k n i : ℕ) → i < n → get_elem? (bits_from v k n) i ≡ some (bit v (k + i))
unfolding bits_from
get_elem?-bits_from v k zero i h = absurd (omega arith)
get_elem?-bits_from v k (suc n) zero h = ap (λ (t : ℕ). some (bit v t)) (omega arith)
get_elem?-bits_from v k (suc n) (suc i) h =
    get_elem?-bits_from v (k + 1) n i (omega arith) ∙ ap (λ (t : ℕ). some (bit v t)) (omega arith)

get_elem?-byte_bits :
    (bytes : List ℕ) (i j : ℕ)
    → j < 8
    → get_elem? (byte_bits bytes) (8 * i + j) ≡ Option.map (λ b. bit b j) (get_elem? bytes i)
unfolding byte_bits
get_elem?-byte_bits [] i j h = refl
get_elem?-byte_bits (byte ∷ bytes) zero j h =
    ap (get_elem? _) (let e : 8 * 0 + j ≡ j = omega arith in e)
    ∙ (get_elem?-append_left (bits_from byte 0 8) _ j (rw length-bits_from h)
        ∙ (get_elem?-bits_from byte 0 8 j h ∙ ap (λ (t : ℕ). some (bit byte t)) (omega arith)))
get_elem?-byte_bits (byte ∷ bytes) (suc i) j h =
    ap (get_elem? _) past_first
    ∙ (get_elem?-append_right (bits_from byte 0 8) (byte_bits bytes) (8 * i + j)
        ∙ get_elem?-byte_bits bytes i j h)
  where
    past_first : 8 * suc i + j ≡ length (bits_from byte 0 8) + (8 * i + j)
    past_first = omega (arith, length-bits_from byte 0 8)

-- A decoded bitvector has eight bits for each byte that `hex::decode` yields, and bit `j` of byte
-- `i` stands at place `8 * i + j`.
pub decode_bitvector-layout :
    (hex_decode : String → Option (List ℕ)) (hex_str : String) (bytes : List ℕ)
    → hex_decode (trim_start_0x hex_str) ≡ some bytes
    → (bits : List Bool) × (decode_bitvector hex_decode hex_str ≡ ok bits)
      × (length bits ≡ 8 * length bytes)
      × ((i j : ℕ)
          → j < 8
          → get_elem? bits (8 * i + j) ≡ Option.map (λ b. bit b j) (get_elem? bytes i))
unfolding decode_bitvector
decode_bitvector-layout hex_decode hex_str bytes read =
    (byte_bits bytes, rw read, length-byte_bits bytes, get_elem?-byte_bits bytes)
