-- ===== src/Scep/Codes.antt =====
-- The decimal codes of src/scep/attributes.rs.
use blapki.Prelude.{String, ◌≡◌, ◌↔◌, refl, ok, trim, arith, eq_iff}
use blapki.Scep.Attributes.{MessageType, message_type_value, message_type_of, from_value}

message_type_of-message_type_value :
    (m : MessageType) → message_type_of (message_type_value m) ≡ ok m
unfolding message_type_of message_type_value
message_type_of-message_type_value MessageType.cert_rep = refl
message_type_of-message_type_value _ = refl

message_type_of-eq-ok :
    (s : String) (m : MessageType) → message_type_of s ≡ ok m → s ≡ message_type_value m
unfolding message_type_of message_type_value
message_type_of-eq-ok s m h =
    ground (
      arith,
      eq_iff s "3",
      eq_iff s "17",
      eq_iff s "19",
      eq_iff s "20",
      eq_iff s "21",
      eq_iff s "22",
    )

-- A text is read as a message type exactly if, without the white space around it, it is the code
-- that is written for that type; every other text is refused.
pub from_value_iff :
    (s : String) (m : MessageType) → (from_value s ≡ ok m) ↔ (trim s ≡ message_type_value m)
unfolding from_value
from_value_iff s m =
    (message_type_of-eq-ok (trim s) m, λ h. rw h (message_type_of-message_type_value m))
