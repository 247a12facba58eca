-- ===== src/Ipc/Payload.antt =====
-- SPayloadHdr and pcrf_session_cache_fill_payload of src/pcrf_ipc.cpp. The header is packed, its
-- 16-bit members lie low byte first.
use native.Mathlib.Nat.{mod-eq_of_lt}
use pcrf.Common.{
  ℕ, ◌+◌, ◌-◌, ◌*◌, ◌/◌, ◌%◌, ◌≤◌, ◌<◌, ◌≡◌, refl, ap, Option, none, some, [], ◌∷◌, ◌++◌, arith,
  leb, if◌then◌else◌,
}
use pcrf.Common.Text.{Text}
use pcrf.Common.Lists.{length, take}

-- A uint16_t and an int32_t (as its bit pattern) in memory.
unfoldable pub u16 : ℕ → Text
u16 n = n % 256 ∷ n / 256 % 256 ∷ []

unfoldable pub u32 : ℕ → Text
u32 n = n % 256 ∷ n / 256 % 256 ∷ n / 65536 % 256 ∷ n / 16777216 % 256 ∷ []

-- Reading an int32_t back: *reinterpret_cast<int32_t*>.
unfoldable pub read_u32 : Text → ℕ
read_u32 (a ∷ b ∷ c ∷ d ∷ []) = a + 256 * b + 65536 * c + 16777216 * d
read_u32 _ = 0

-- sizeof( SPayloadHdr ).
abbrev payload_hdr_size : ℕ
payload_hdr_size = 8

-- A value to send: vendor, AVP code and content.
pub record Item : Type 0 where
  pub vend_id : ℕ
  pub avp_id : ℕ
  pub content : Text

-- The header and what follows it.
unfoldable pub payload_bytes : ℕ → ℕ → Text → Text
unfolding u16
payload_bytes vend avp content =
    u16 vend ++ (u16 avp ++ (u16 0 ++ (u16 (length content + payload_hdr_size) ++ content)))

-- pcrf_session_cache_fill_payload, called with the length of the content, which the parameter
-- p_uiDataLen takes modulo 2^16; `none` stands for EINVAL.
unfoldable pub fill_payload : ℕ → Item → Option Text
unfolding payload_bytes
fill_payload max_size it =
    let len = length it.content % 65536 in
    if leb (len + payload_hdr_size) max_size
    then some (payload_bytes it.vend_id it.avp_id (take len it.content))
    else none

-- What pcrf_ipc_process_request reads of a PCRF_ATTR_AVP attribute through its SPayloadHdr. `none`
-- stands for a payload whose header is cut off or states a length that is less than the header
-- or more than the attribute holds: there the code reads outside of the attribute.
unfoldable pub read_payload : Text → Option Item
read_payload (v0 ∷ v1 ∷ a0 ∷ a1 ∷ p0 ∷ p1 ∷ l0 ∷ l1 ∷ content) =
    let len = l0 + 256 * l1 in
    if leb payload_hdr_size len
    then (if leb (len - payload_hdr_size) (length content)
        then some (record {
          vend_id = v0 + 256 * v1;
          avp_id = a0 + 256 * a1;
          content = take (len - payload_hdr_size) content;
        })
        else none)
    else none
read_payload _ = none

take-length : (x : Text) → take (length x) x ≡ x
take-length [] = refl
take-length (a ∷ x) = ap (◌∷◌ a) (take-length x)

pub read_payload-payload_bytes :
    (it : Item)
    → it.vend_id < 65536
    → it.avp_id < 65536
    → length it.content + payload_hdr_size < 65536
    → read_payload (payload_bytes it.vend_id it.avp_id it.content) ≡ some it
unfolding read_payload payload_bytes
read_payload-payload_bytes it v a l = ground (arith, take-length it.content)

pub fill_payload-fits :
    (n : ℕ) (it : Item) (x : Text)
    → length it.content < 65536
    → fill_payload n it ≡ some x
    → (x ≡ payload_bytes it.vend_id it.avp_id it.content)
      × (length it.content + payload_hdr_size ≤ n)
unfolding fill_payload
fill_payload-fits n it x l h = ground (arith, h, mod-eq_of_lt l, take-length it.content)

pub read_u32-u32 : (n : ℕ) → n < 4294967296 → read_u32 (u32 n) ≡ n
unfolding read_u32 u32
read_u32-u32 n h = omega arith
