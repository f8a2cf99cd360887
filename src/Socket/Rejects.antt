-- ===== src/Socket/Rejects.antt =====
-- The server takes eight parts where a client sends seven and an object has five: no ADD goes through.
use nntp_history.Prelude.{
  Bool, List, [], ◌∷◌, eq_bytes, Option, none, some, ◌≡◌, ◌≢◌, ◌⊎◌, inl, inr, refl, ◌∙◌, arith,
  Bytes, Lacks, length, codes,
}
use nntp_history.Cases.{HistoryObject}
use nntp_history.Store.{Database}
use nntp_history.Text.{split, join, split-join}
use nntp_history.Writer.{Config, Env}
use mathlib.Core.List.{cons-ne-nil}
use nntp_history.Text.Number.RoundTrip.{format_nat-Lacks}
use nntp_history.HashEnc.{crc}
use nntp_history.Socket.Wire.{IsSendable, fields, fields-Lacks}
use nntp_history.Socket.{
  add_line, convert_history_object_to_string, convert_string_to_history_object, check_add, part_err,
  crc_err, hobj_err, accepted, converted, Conn, handle_line, handle_add, command_of, add, reads,
  Checked,
}

six_fail : (parts : List Bytes) → length parts ≡ 6 → convert_string_to_history_object parts ≡ none
unfolding convert_string_to_history_object
six_fail [] h = refl
six_fail (a ∷ []) h = refl
six_fail (a ∷ b ∷ []) h = refl
six_fail (a ∷ b ∷ c ∷ []) h = refl
six_fail (a ∷ b ∷ c ∷ d ∷ []) h = refl
six_fail (a ∷ b ∷ c ∷ d ∷ e ∷ []) h = absurd (omega arith)
six_fail (a ∷ b ∷ c ∷ d ∷ e ∷ f ∷ parts) h = refl

check_add-ne-accepted :
    (parts : List Bytes) (hobj : HistoryObject) → check_add parts ≢ accepted hobj
unfolding check_add converted
check_add-ne-accepted [] hobj h = cc
check_add-ne-accepted (cmd ∷ []) hobj h = cc
check_add-ne-accepted (cmd ∷ sum ∷ rest) hobj h = ground (arith, six_fail rest)

crc_spaceless : (s : Bytes) → Lacks b' ' (crc s)
unfolding crc
crc_spaceless s = format_nat-Lacks 16 _ b' ' (omega arith) (omega arith)

-- The three refusals of ADD.
abbrev pub IsRefusal : Option Bytes → Type 0
IsRefusal reply =
    (reply ≡ some (codes "401 PART ERR"))
    ⊎ (reply ≡ some (codes "402 CRC ERR"))
    ⊎ (reply ≡ some (codes "403 HOBJ ERR"))

module _ (D : Database) where
  handle_line-add :
      (cfg : Config) (env : Env) (has_writer starts : Bool) (line : Bytes) (c : Conn D)
      (parts : List Bytes)
      → split b' ' line ≡ parts
      → command_of parts ≡ add
      → handle_line D cfg env has_writer starts (some line) c
        ≡ handle_add D cfg env has_writer c (check_add parts)
  unfolding handle_line
  handle_line-add cfg env has_writer starts line c parts e h = ground arith

  -- Every line with the command ADD is refused with 401, 402 or 403, the connection reads on, and
  -- neither the history nor the connection changes.
  pub add_is_refused :
      (cfg : Config) (env : Env) (has_writer starts : Bool) (line : Bytes) (c : Conn D)
      → command_of (split b' ' line) ≡ add
      → ((handle_line D cfg env has_writer starts (some line) c).next ≡ reads)
        × IsRefusal (handle_line D cfg env has_writer starts (some line) c).reply
        × ((handle_line D cfg env has_writer starts (some line) c).conn ≡ c)
  add_is_refused cfg env has_writer starts line c h =
      rw (handle_line-add cfg env has_writer starts line c _ refl h)
        (refused (check_add (split b' ' line)) (check_add-ne-accepted (split b' ' line)))
    where
      refused :
          (checked : Checked)
          → ((hobj : HistoryObject) → checked ≢ accepted hobj)
          → ((handle_add D cfg env has_writer c checked).next ≡ reads)
            × IsRefusal (handle_add D cfg env has_writer c checked).reply
            × ((handle_add D cfg env has_writer c checked).conn ≡ c)
      refused part_err n = unfold handle_add in (refl, inl refl, refl)
      refused crc_err n = unfold handle_add in (refl, inr (inl refl), refl)
      refused hobj_err n = unfold handle_add in (refl, inr (inr refl), refl)
      refused (accepted hobj) n = absurd (n hobj refl)

  -- The line that a client sends for an object, with no space in its hash and token and with int64
  -- times, is answered with 401 by the server, and nothing changes.
  pub add_line_is_refused :
      (cfg : Config) (env : Env) (has_writer starts : Bool) (obj : HistoryObject) (c : Conn D)
      → IsSendable obj
      → handle_line D cfg env has_writer starts (some (add_line obj)) c
        ≡ record { next = reads; reply = some (codes "401 PART ERR"); conn = c }
  add_line_is_refused cfg env has_writer starts obj c s =
      handle_line-add cfg env has_writer starts (add_line obj) c seven parts named
      ∙ (unfold check_add handle_add in refl)
    where
      seven : List Bytes
      seven = codes "ADD" ∷ crc (convert_history_object_to_string obj) ∷ fields obj

      named : command_of seven ≡ add
      named = unfold command_of in (unfold eq_bytes in refl)

      parts : split b' ' (add_line obj) ≡ seven
      parts =
          unfold add_line convert_history_object_to_string join in
          split-join b' ' seven (cons-ne-nil _ _) (
            (ground arith, (ground arith, (ground arith, tt))),
            (crc_spaceless (convert_history_object_to_string obj), fields-Lacks s),
          )
