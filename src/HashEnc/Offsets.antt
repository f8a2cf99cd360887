-- ===== src/HashEnc/Offsets.antt =====
-- Offsets that were joined are read back, and what the reader refuses.
use mathlib.Core.List.{cons-ne-nil}
use nntp_history.Prelude.{
  ℕ, ◌≤◌, Bool, true, false, List, [], ◌∷◌, ◌++◌, map, append_assoc, append-nil, Option, none, some,
  ◌≡◌, ◌≢◌, ◌↔◌, refl, ◌∙◌, arith, Bytes, ok, panic, length, All, Lacks, Option-cases, inl, inr,
}
use nntp_history.Prelude.Int.{ℤ, IsInt64}
use nntp_history.Text.{split, join, split-terminated, join-terminated}
use nntp_history.Text.Number.{format_int, parse_int}
use nntp_history.Text.Number.RoundTrip.{parse_int-format_int, format_int-Lacks, format_int-ne-nil}
use nntp_history.HashEnc.{base_of, concat_int64, read_parts, last_byte, parse_byte_to_slice}

base_bounds : (hex : Bool) → (2 ≤ base_of hex) × (base_of hex ≤ 16)
unfolding base_of
base_bounds true = omega arith
base_bounds false = omega arith

last_byte_lem : (s : Bytes) (c : ℕ) → last_byte (s ++ c ∷ []) ≡ some c
unfolding last_byte
last_byte_lem [] c = refl
last_byte_lem (a ∷ []) c = refl
last_byte_lem (a ∷ b ∷ s) c = last_byte_lem (b ∷ s) c

-- A part that is not empty is parsed.
read_part :
    (hex : Bool) (part : Bytes) (parts : List Bytes) (result : List ℤ) (v : ℤ)
    → part ≢ []
    → parse_int (base_of hex) part ≡ some v
    → read_parts hex (part ∷ parts) result ≡ read_parts hex parts (result ++ v ∷ [])
unfolding read_parts
read_part hex [] parts result v h e = absurd (h refl)
read_part hex (c ∷ part) parts result v h e = rw (e, read_parts)

printed : Bool → List ℤ → List Bytes
printed hex xs = map (format_int (base_of hex)) xs

read_parts-printed :
    (hex : Bool) (xs result : List ℤ)
    → All IsInt64 xs
    → read_parts hex (printed hex xs ++ [] ∷ []) result
      ≡ (ok (length (result ++ xs)), some (result ++ xs))
unfolding printed
read_parts-printed hex [] result h = unfold read_parts in rw append-nil
read_parts-printed hex (x ∷ xs) result h =
    read_part hex _ _ result x (format_int-ne-nil (base_of hex) x)
      (parse_int-format_int (base_of hex) x (base_bounds hex).0 (base_bounds hex).1 h.0)
    ∙ read_parts-printed hex xs (result ++ x ∷ []) h.1
    ∙ rw append_assoc

printed-ne-nil : (hex : Bool) (xs : List ℤ) → xs ≢ [] → printed hex xs ≢ []
unfolding printed
printed-ne-nil hex [] h = absurd (h refl)
printed-ne-nil hex (x ∷ xs) h = cons-ne-nil _ _

printed-Lacks : (hex : Bool) (xs : List ℤ) → All (Lacks b',') (printed hex xs)
unfolding printed
printed-Lacks hex [] = tt
printed-Lacks hex (x ∷ xs) =
    (format_int-Lacks (base_of hex) x b',' (base_bounds hex).0 (omega arith), printed-Lacks hex xs)

-- The text that is written for some offsets.
pub offsets_text : Bool → List ℤ → Bytes
offsets_text hex xs = join b',' (printed hex xs) ++ b',' ∷ []

pub concat_int64_lem :
    (hex : Bool) (xs : List ℤ) (output : Bytes)
    → xs ≢ []
    → concat_int64 hex xs (some output)
      ≡ (ok (length (offsets_text hex xs)), some (offsets_text hex xs))
unfolding concat_int64 offsets_text printed
concat_int64_lem hex [] output h = absurd (h refl)
concat_int64_lem hex (x ∷ xs) output h = refl

read_text :
    (hex : Bool) (s : Bytes) (result : List ℤ)
    → parse_byte_to_slice hex (some (s ++ b',' ∷ [])) (some result)
      ≡ read_parts hex (split b',' (s ++ b',' ∷ [])) result
unfolding parse_byte_to_slice
read_text hex s result = rw (last_byte_lem s b',', parse_byte_to_slice)

-- Offsets written by concatInt64, at least one and all of them int64, are read back by
-- parseByteToSlice behind what the result held, in either base; the length of the text is returned.
pub parse-concat :
    (hex : Bool) (xs : List ℤ) (output : Bytes) (result : List ℤ)
    → xs ≢ []
    → All IsInt64 xs
    → (text : Bytes) × (concat_int64 hex xs (some output) ≡ (ok (length text), some text))
      × (parse_byte_to_slice hex (some text) (some result)
          ≡ (ok (length (result ++ xs)), some (result ++ xs)))
unfolding offsets_text
parse-concat hex xs output result h fits = (
  offsets_text hex xs,
  concat_int64_lem hex xs output h,
  read_text hex (join b',' (printed hex xs)) result
      ∙ rw
          (
            join-terminated b',' (printed hex xs) (printed-ne-nil hex xs h),
            split-terminated b',' (printed hex xs) (printed-Lacks hex xs),
          )
          (read_parts-printed hex xs result fits),
)

read_parts-ne-panic :
    (hex : Bool) (parts : List Bytes) (result : List ℤ) → (read_parts hex parts result).0 ≢ panic
unfolding read_parts
read_parts-ne-panic hex [] result h = cc
read_parts-ne-panic hex ([] ∷ parts) result h = read_parts-ne-panic hex parts result h
read_parts-ne-panic hex ((c ∷ part) ∷ parts) result h =
    elim (Option-cases (parse_int (base_of hex) (c ∷ part))) [
      | inl e ↦ cc (rw (e, read_parts) at h)
      | inr (v, e) ↦ read_parts-ne-panic hex parts (result ++ v ∷ []) (rw (e, read_parts) at h)
    ]

last_byte_some : (c : ℕ) (s : Bytes) → last_byte (c ∷ s) ≢ none
unfolding last_byte
last_byte_some c [] h = cc
last_byte_some c (d ∷ s) h = last_byte_some d s h

-- parseByteToSlice panics exactly when it is given a slice that is not nil and holds no byte, and
-- somewhere to put the values.
pub parse_panics_iff :
    (hex : Bool) (input : Option Bytes) (result : Option (List ℤ))
    → ((parse_byte_to_slice hex input result).0 ≡ panic)
      ↔ ((input ≡ some []) × ((r : List ℤ) × (result ≡ some r)))
unfolding parse_byte_to_slice
parse_panics_iff hex none result = (λ h. cc, λ h. cc (h.0))
parse_panics_iff hex (some input) none = (λ h. cc, λ h. cc (h.1.1))
parse_panics_iff hex (some []) (some r) = (λ h. (refl, (r, refl)), λ h. unfold last_byte in refl)
parse_panics_iff hex (some (c ∷ s)) (some r) = (λ h. absurd (never h), λ h. cc (h.0))
  where
    never : (parse_byte_to_slice hex (some (c ∷ s)) (some r)).0 ≢ panic
    never h = ground (arith, last_byte_some c s, read_parts-ne-panic hex (split b',' (c ∷ s)) r)
