-- ===== src/Boot/Header.antt =====
-- history.dat is opened: a new one gets a header, which every later opening reads.
use nntp_history.Prelude.{
  ℕ, Bool, suc, ◌-◌, ◌≤◌, ◌<◌, true, false, [], ◌∷◌, ◌++◌, some, none, ◌≡◌, ◌≢◌, refl, ap, ◌∙◌,
  arith, Bytes, Lacks, All-map, append_assoc, length, length-append, ◌==◌, ok,
}
use nntp_history.Prelude.Int.{ℤ, pos, eq_ℤ}
use nntp_history.Cases.{zero_pad_len}
use nntp_history.HashEnc.{null_pad, remove_null_pad}
use nntp_history.HashEnc.Padding.{remove_null_pad-pad, null_pad-Lacks}
use nntp_history.HisDat.{fseek_history_header}
use nntp_history.HisDat.Header.{write_history_header_lem, fseek_history_header_lem}
use nntp_history.Boot.{
  Settings, Codec, IsBase64, goes_on, hash_short, writer_on, open_file, new_header, old_header,
  checked, gob_encode_header, gob_decode_header, header_written,
}

IsBase64-Lacks : (d : ℕ) (s : Bytes) → d < b'+' → IsBase64 s → Lacks d s
IsBase64-Lacks d s h b = All-map _ (λ c. c ≢ d) s (λ c p. ground arith) b

module _ (g : Codec) (asked : Settings) where
  -- The header of these settings, and lines behind it.
  pub record HasHeader (file : Bytes) : Type 0 where
    pub text : Bytes
    pub encoded : g.encode asked ≡ some text
    pub fits : length text ≤ zero_pad_len
    pub rest : Bytes
    pub begins : file ≡ null_pad text zero_pad_len ++ 10 ∷ rest

  padded :
      (text : Bytes)
      → g.encode asked ≡ some text
      → length text ≤ zero_pad_len
      → (remove_null_pad (null_pad text zero_pad_len) ≡ text)
        × (length (null_pad text zero_pad_len) ≡ zero_pad_len)
        × Lacks 10 (null_pad text zero_pad_len)
  padded text e fits =
      let b = g.encode-IsBase64 asked text e in
      let (back, left, size, left_size) =
        remove_null_pad-pad text zero_pad_len (IsBase64-Lacks 0 text (omega arith) b) in
      (
        back,
        omega (arith, size),
        null_pad-Lacks 10 zero_pad_len text (omega arith) (IsBase64-Lacks 10 text (omega arith) b),
      )

  pub length_header :
      (text : Bytes)
      → g.encode asked ≡ some text
      → length text ≤ zero_pad_len
      → length (null_pad text zero_pad_len ++ 10 ∷ []) ≡ suc zero_pad_len
  length_header text e fits =
      omega (arith, (padded text e fits).1, length-append (null_pad text zero_pad_len) (10 ∷ []))

  -- Lines behind the header leave it as it is.
  pub HasHeader-append :
      (text lines : Bytes)
      → g.encode asked ≡ some text
      → length text ≤ zero_pad_len
      → HasHeader ((null_pad text zero_pad_len ++ 10 ∷ []) ++ lines)
  HasHeader-append text lines e fits = record {
    text = text;
    encoded = e;
    fits = fits;
    rest = lines;
    begins = append_assoc (null_pad text zero_pad_len) (10 ∷ []) lines;
  }

  pub open_new :
      (text : Bytes) (readable : Bool) (room : ℕ)
      → g.encode asked ≡ some text
      → length text ≤ zero_pad_len
      → suc zero_pad_len ≤ room
      → open_file g readable room asked none
        ≡ goes_on
            (asked, writer_on (null_pad text zero_pad_len ++ 10 ∷ []) (room - suc zero_pad_len))
  unfolding open_file new_header gob_encode_header header_written
  open_new text readable room e fits enough =
      let (back, size, lacks) = padded text e fits in
      let encoded : gob_encode_header g asked ≡ some (null_pad text zero_pad_len) =
        rw (e, gob_encode_header) in
      rw
        (
          open_file,
          new_header,
          encoded,
          write_history_header_lem (null_pad text zero_pad_len) room size enough,
        )
        refl

  same : (z : ℤ) → eq_ℤ z z ≡ true
  same z = ground arith

  read_back :
      (file : Bytes)
      → HasHeader file
      → asked.ka ≡ hash_short
      → asked.kl ≢ pos 0
      → old_header g asked (fseek_history_header (some file)) ≡ goes_on asked
  unfolding old_header gob_decode_header checked
  read_back file v ka kl =
      let (back, size, lacks) = padded v.text v.encoded v.fits in
      let header : fseek_history_header (some file) ≡ ok (null_pad v.text zero_pad_len) =
        ap (λ t. fseek_history_header (some t)) v.begins
        ∙ fseek_history_header_lem (null_pad v.text zero_pad_len) v.rest lacks in
      let ne_zero : (length (null_pad v.text zero_pad_len) == 0) ≡ false = ground (arith, size) in
      let decoded : gob_decode_header g (null_pad v.text zero_pad_len) asked ≡ some asked =
        ap (λ t. g.decode t asked) back
        ∙ g.decode-encode asked asked v.text (λ z. ground (arith, ka, z)) kl v.encoded in
      rw (header, old_header, ne_zero, decoded, same asked.kl, ka) refl

  pub open_old :
      (file : Bytes) (room : ℕ)
      → HasHeader file
      → asked.ka ≡ hash_short
      → asked.kl ≢ pos 0
      → open_file g true room asked (some file) ≡ goes_on (asked, writer_on file room)
  unfolding open_file
  open_old file room v ka kl = rw (read_back file v ka kl)
