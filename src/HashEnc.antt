-- ===== src/HashEnc.antt =====
-- HASHENC.go: offsets joined into a text and read back, padding with NUL bytes, the CRC of a line.
pub mod Offsets
pub mod Padding
mod Tests
use Prim.Native.Nat.{bit_and, bit_xor}
use nntp_history.Prelude.{
  ℕ, zero, suc, ◌+◌, ◌-◌, ◌/◌, ◌%◌, ◌^◌, Bool, true, false, List, [], ◌∷◌, ◌++◌, map, Option, none,
  some, ◌≡◌, refl, Bytes, codes, Outcome, ok, fail, panic, ltb, ◌==◌, if◌then◌else◌, length,
  replicate,
}
use nntp_history.Prelude.Int.{ℤ, pos, negsuc}
use nntp_history.Text.{split, join, remove}
use nntp_history.Text.Number.{format_int, format_nat, parse_int}

-- The global HEX chooses the base in which offsets are written and read.
unfoldable pub base_of : Bool → ℕ
base_of hex = if hex then 16 else 10

-- concatInt64: an absent output stands for the nil pointer.
pub concat_int64 : Bool → List ℤ → Option Bytes → Outcome ℕ × Option Bytes
unfolding base_of
concat_int64 hex [] output = (fail, output)
concat_int64 hex (x ∷ xs) none = (fail, none)
concat_int64 hex (x ∷ xs) (some output) =
    let text = join b',' (map (format_int (base_of hex)) (x ∷ xs)) ++ b',' ∷ [] in
    (ok (length text), some text)

-- The loop over the parts. Values read before an error stay in the result.
read_parts : Bool → List Bytes → List ℤ → Outcome ℕ × Option (List ℤ)
unfolding base_of
read_parts hex [] result = (ok (length result), some result)
read_parts hex ([] ∷ parts) result = read_parts hex parts result
read_parts hex ((c ∷ part) ∷ parts) result = elim (parse_int (base_of hex) (c ∷ part)) [
  | none ↦ (fail, some result)
  | some value ↦ read_parts hex parts (result ++ value ∷ [])
]

-- input[len(input)-1], which panics on an empty slice.
last_byte : Bytes → Option ℕ
last_byte [] = none
last_byte (c ∷ []) = some c
last_byte (c ∷ d ∷ s) = last_byte (d ∷ s)

-- parseByteToSlice: an absent input is the nil slice, an absent result the nil pointer.
pub parse_byte_to_slice : Bool → Option Bytes → Option (List ℤ) → Outcome ℕ × Option (List ℤ)
unfolding read_parts last_byte
parse_byte_to_slice hex none result = (fail, result)
parse_byte_to_slice hex (some input) none = (fail, none)
parse_byte_to_slice hex (some input) (some result) = elim (last_byte input) [
  | none ↦ (panic, some result)
  | some c ↦ if c == b',' then read_parts hex (split b',' input) result else (fail, some result)
]

-- LeftPad and NullPad: NUL bytes up to a length, in front or behind.
pub left_pad : Bytes → ℕ → Bytes
left_pad input len =
    if ltb (length input) len then replicate (len - length input) 0 ++ input else input

pub null_pad : Bytes → ℕ → Bytes
null_pad input len =
    if ltb (length input) len then input ++ replicate (len - length input) 0 else input

-- RemoveNullPad
pub remove_null_pad : Bytes → Bytes
remove_null_pad input = remove 0 input

-- One bit of crc32.NewIEEE: the reversed polynomial is 0xEDB88320.
crc_bit : ℕ → ℕ
crc_bit crc = if crc % 2 == 1 then bit_xor (crc / 2) 0xEDB88320 else crc / 2

crc_bits : ℕ → ℕ → ℕ
unfolding crc_bit
crc_bits zero crc = crc
crc_bits (suc n) crc = crc_bits n (crc_bit crc)

crc_update : ℕ → Bytes → ℕ
unfolding crc_bits
crc_update crc [] = crc
crc_update crc (b ∷ s) = crc_update (crc_bits 8 (bit_xor crc b)) s

-- CRC: the checksum in lower-case hexadecimal, with no leading zeros.
unfoldable pub crc : Bytes → Bytes
unfolding crc_update
crc input = format_nat 16 (bit_xor (crc_update 0xFFFFFFFF input) 0xFFFFFFFF)
