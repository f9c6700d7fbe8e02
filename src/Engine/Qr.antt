-- ===== src/Engine/Qr.antt =====
-- app/engine/qr/base.py: the shape of an EMVCo payment payload, over bytes.
use Prim.Native.Nat.{bit_xor, bit_and}
use avvalo.Prelude.{
  ℕ, zero, suc, ◌+◌, ◌-◌, ◌*◌, ◌%◌, ◌^◌, Bool, true, false, not, ◌&&◌, List, [], ◌∷◌, ◌++◌, Option,
  none, some, leb, ltb, nat_eq, if◌then◌else◌, length, take,
}

-- `data[n:]`
abbrev pub drop : ℕ → List ℕ → List ℕ
drop zero bytes = bytes
drop (suc n) [] = []
drop (suc n) (b ∷ bytes) = drop n bytes

-- One round of the inner loop of `_crc16_ccitt_false`.
abbrev crc_bit : ℕ → ℕ
crc_bit crc =
    if nat_eq (bit_and crc 0x8000) 0 then crc * 2 % 2 ^ 16 else bit_xor (crc * 2) 0x1021 % 2 ^ 16

crc_bits : ℕ → ℕ → ℕ
crc_bits zero crc = crc
crc_bits (suc n) crc = crc_bits n (crc_bit crc)

crc_from : ℕ → List ℕ → ℕ
unfolding crc_bits
crc_from crc [] = crc
crc_from crc (byte ∷ bytes) = crc_from (crc_bits 8 (bit_xor crc (byte * 256))) bytes

unfoldable pub crc16_ccitt_false : List ℕ → ℕ
unfolding crc_from
crc16_ccitt_false bytes = crc_from 0xffff bytes

abbrev is_digit : ℕ → Bool
is_digit b = leb 48 b && leb b 57

-- `int(length_bytes)` and `tag == b"63"` of two bytes, as the number of a tag
abbrev pub two_digits : ℕ → ℕ → ℕ
two_digits a b = (a - 48) * 10 + (b - 48)

-- The value of a hexadecimal digit, or nothing.
abbrev hex_value : ℕ → Option ℕ
hex_value b =
    if is_digit b
    then some (b - 48)
    else if leb 65 b && leb b 70
    then some (b - 55)
    else if leb 97 b && leb b 102
    then some (b - 87)
    else none

hex_from : ℕ → List ℕ → Option ℕ
hex_from n [] = some n
hex_from n (b ∷ bytes) = elim (hex_value b) [ none ↦ none | some d ↦ hex_from (n * 16 + d) bytes ]

is_value : ℕ → Option ℕ → Bool
is_value crc none = false
is_value crc (some supplied) = nat_eq supplied crc

same_bytes : List ℕ → List ℕ → Bool
same_bytes [] [] = true
same_bytes (a ∷ as') (b ∷ bs) = nat_eq a b && same_bytes as' bs
same_bytes _ _ = false

-- The field with tag "63": its value is the checksum of all bytes before it, and it ends the data.
checksum_field : List ℕ → ℕ → List ℕ → List ℕ → Bool
unfolding crc16_ccitt_false hex_from is_value
checksum_field seen size value rest =
    nat_eq size 4
    && (nat_eq (length rest) 0 && is_value (crc16_ccitt_false seen) (hex_from 0 value))

-- The loop over the fields; `seen` holds the bytes before the offset. Each round takes four bytes or
-- more, so the length of the data is fuel enough.
pub fields_from : ℕ → Bool → List ℕ → List ℕ → Bool
unfolding checksum_field same_bytes
fields_from zero first seen bytes = false
fields_from (suc fuel) first seen (a ∷ b ∷ c ∷ d ∷ bytes) =
    let size = two_digits c d in
    let value = take size bytes in
    let rest = drop size bytes in
    let next = fields_from fuel false (seen ++ (a ∷ b ∷ c ∷ d ∷ value)) rest in
    if not (is_digit a && is_digit b && is_digit c && is_digit d)
    then false
    else if ltb (length bytes) size
    then false
    else if first && not (nat_eq (two_digits a b) 0 && same_bytes value (48 ∷ 49 ∷ []))
    then false
    else if nat_eq (two_digits a b) 63
    then checksum_field seen size value rest
    else next
fields_from (suc fuel) first seen _ = false

-- `is_emvco_payment_payload`, on the UTF-8 bytes of the payload
unfoldable pub is_emvco_payment_payload : List ℕ → Bool
unfolding fields_from
is_emvco_payment_payload bytes =
    if ltb (length bytes) 20 then false else fields_from (length bytes) true [] bytes
