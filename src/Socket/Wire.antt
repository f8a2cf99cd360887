-- ===== src/Socket/Wire.antt =====
-- A history object survives the text that it is sent as.
use mathlib.Core.List.{cons-ne-nil}
use nntp_history.Prelude.{false, List, [], ◌∷◌, some, ◌≡◌, arith, Bytes, Lacks, All}
use nntp_history.Prelude.Int.{ℤ, IsInt64}
use nntp_history.Cases.{HistoryObject}
use nntp_history.Text.{split, split-join}
use nntp_history.Text.Number.{format_int, parse_int}
use nntp_history.Text.Number.RoundTrip.{parse_int-format_int, format_int-Lacks}
use nntp_history.Socket.{convert_history_object_to_string, convert_string_to_history_object}

-- The object that the receiver makes: it has neither a prefix nor a response channel.
abbrev pub received : HistoryObject → HistoryObject
received obj = record obj { char = []; has_response_chan = false }

-- Neither the hash nor the token has a space, and the times are int64.
pub record IsSendable (obj : HistoryObject) : Type 0 where
  pub hash : Lacks b' ' obj.message_id_hash
  pub token : Lacks b' ' obj.storage_token
  pub arrival : IsInt64 obj.arrival
  pub expires : IsInt64 obj.expires
  pub date : IsInt64 obj.date

abbrev pub fields : HistoryObject → List Bytes
fields obj =
    obj.message_id_hash
    ∷ obj.storage_token
    ∷ format_int 10 obj.arrival
    ∷ format_int 10 obj.expires
    ∷ format_int 10 obj.date
    ∷ []

pub fields-Lacks : {obj : HistoryObject} → IsSendable obj → All (Lacks b' ') (fields obj)
fields-Lacks {obj} s =
    (s.hash, (s.token, (spaceless obj.arrival, (spaceless obj.expires, (spaceless obj.date, tt)))))
  where
    spaceless : (z : ℤ) → Lacks b' ' (format_int 10 z)
    spaceless z = format_int-Lacks 10 z b' ' (omega arith) (omega arith)

-- ConvertStringToHistoryObject takes the text of an object apart again, where neither its hash nor its
-- token has a space and its times are int64: the hash, the token and the three times come back, the
-- prefix and the response channel do not.
pub convert-convert :
    (obj : HistoryObject)
    → IsSendable obj
    → convert_string_to_history_object (split b' ' (convert_history_object_to_string obj))
      ≡ some (received obj)
unfolding convert_history_object_to_string
convert-convert obj s = rw (split-join b' ' (fields obj) (cons-ne-nil _ _) (fields-Lacks s)) (
    unfold convert_string_to_history_object in
    rw (read obj.arrival s.arrival, read obj.expires s.expires, read obj.date s.date))
  where
    read : (z : ℤ) → IsInt64 z → parse_int 10 (format_int 10 z) ≡ some z
    read z h = parse_int-format_int 10 z (omega arith) (omega arith) h
