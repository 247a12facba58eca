-- ===== src/Messages.antt =====
-- Diameter messages as the program sees them: the AVPs of a message or of a group in their order,
-- each with its header and its value. fd_msg_browse and fd_msg_avp_hdr of the freeDiameter library
-- go through this list, and fd_msg_avp_add at MSG_BRW_LAST_CHILD appends to it.
pub mod Dictionary
pub mod Qos
pub mod Features
pub mod Identity
pub mod Usage
pub mod Address
pub mod Rules
pub mod Charging
pub mod Request
pub mod Extraction
pub mod Answer
use pcrf.Common.{ℕ, ◌≡◌, refl, Bool, List, [], ap, if◌then◌else◌}
use pcrf.Common.Text.{Text}
use pcrf.Types.{OtlValue, OtlText}

-- The AVP header: code, vendor and the flag AVP_FLAG_VENDOR. Without the flag the vendor is 0.
pub record Header : Type 0 where
  pub code : ℕ
  pub vendor : ℕ
  pub flag_vendor : Bool

-- union avp_value, by the member that the type of the AVP uses; a number is its bit pattern. A
-- grouped AVP has children in place of a value.
mutual
  pub data Value : Type 0 where
    number : ℕ → Value
    octets : Text → Value
    group : Avps → Value

  pub data Avp : Type 0 where
    avp : Header → Value → Avp

  pub data Avps : Type 0 where
    nil : Avps
    cons : Avp → Avps → Avps

-- `avp_value->u32` and its like, and `avp_value->os`. The dictionary fixes the type of each AVP
-- that is read, so the other cases do not come about.
unfoldable pub number_of : Value → ℕ
number_of (number n) = n
number_of (octets _) = 0
number_of (group _) = 0

unfoldable pub octets_of : Value → Text
octets_of (number _) = []
octets_of (octets s) = s
octets_of (group _) = []

unfoldable pub children_of : Value → Avps
children_of (number _) = nil
children_of (octets _) = nil
children_of (group l) = l

-- The AVPs that are added after others.
infixr 60 ◌then_add◌
unfoldable pub ◌then_add◌ : Avps → Avps → Avps
nil then_add m = m
cons a l then_add m = cons a (l then_add m)

unfoldable pub one : Header → Value → Avps
one h v = cons (avp h v) nil

-- An AVP that is made where the value is not null.
unfoldable pub number_unless_null : Header → OtlValue ℕ → Avps
unfolding one
number_unless_null h o = if o.is_null then nil else one h (number o.v)

unfoldable pub octets_unless_null : Header → OtlText → Avps
unfolding one
octets_unless_null h o = if o.is_null then nil else one h (octets o.v)
