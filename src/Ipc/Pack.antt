-- ===== src/Ipc/Pack.antt =====
-- The sending side of src/pcrf_ipc.cpp: pcrf_session_cache_fill_pspack and pcrf_ipc_cmd2remote.
use pcrf.Common.{ℕ, Option, none, some, List, [], ◌∷◌, ◌++◌, if◌then◌else◌, ◌==◌}
use pcrf.Common.Text.{Text}
use pcrf.Common.Lists.{concat, take, drop, length}
use pcrf.Types.{OtlText, SessionCache, einval}
use pcrf.Ipc.Payload.{Item, fill_payload, u32}
use pcrf.Ipc.Codes.{Codes, PsPacket}

-- `if ( 0 == pco_field->is_null() )` around the value of a field.
unfoldable pub field_item : ℕ → ℕ → OtlText → List Item
field_item vend avp f =
    if f.is_null then [] else record { vend_id = vend; avp_id = avp; content = f.v } ∷ []

unfoldable pub code_item : ℕ → ℕ → ℕ → List Item
code_item vend avp n = record { vend_id = vend; avp_id = avp; content = u32 n } ∷ []

unfoldable pub option_item : ℕ → ℕ → Option Text → List Item
option_item vend avp none = []
option_item vend avp (some t) = record { vend_id = vend; avp_id = avp; content = t } ∷ []

-- The values of PCRF_CMD_INSERT_SESSION after the Session-Id, in the order of the code.
unfoldable pub session_items : Codes → SessionCache → Option Text → List Item
unfolding field_item code_item option_item
session_items k c par = concat (
    field_item 65535 k.ps_subscr c.subscriber_id
    ∷ field_item 0 8 c.framed_ip_addr
    ∷ field_item 0 30 c.called_station_id
    ∷ code_item 10415 1027 c.ip_can_type_code
    ∷ field_item 65535 k.attr_ipcantype c.ip_can_type
    ∷ field_item 10415 18 c.sgsn_mccmnc
    ∷ field_item 10415 6 c.sgsn_ip_addr
    ∷ code_item 10415 1032 c.rat_type_code
    ∷ field_item 65535 k.attr_rattype c.rat_type
    ∷ field_item 0 264 c.origin_host
    ∷ field_item 0 296 c.origin_realm
    ∷ field_item 65535 k.attr_cgi c.cgi
    ∷ field_item 65535 k.attr_ecgi c.ecgi
    ∷ field_item 65535 k.attr_tai c.tai
    ∷ field_item 65535 k.attr_imei c.imeisv
    ∷ field_item 65535 k.attr_imsi c.end_user_imsi
    ∷ field_item 65535 k.attr_e164 c.end_user_e164
    ∷ option_item 65535 k.attr_pses par
    ∷ [])

-- The value of the two rule commands; they return -1 if the name is a null pointer.
unfoldable pub rule_items : Codes → Option Text → Option (List Item)
unfolding option_item
rule_items k none = none
rule_items k (some name) = some (option_item 65535 k.attr_rulnm (some name))

-- The values that follow the Session-Id, by command; `none` where the function returns -1 for a
-- null pointer or an unknown command.
unfoldable pub command_items : Codes → ℕ → Option SessionCache → Option Text → Option (List Item)
unfolding session_items rule_items
command_items k type cache param =
    if type == k.cmd_insert_session
    then (elim cache [ none ↦ none | some c ↦ some (session_items k c param) ])
    else if type == k.cmd_remove_session
    then some []
    else if type == k.cmd_insert_sessrul
    then rule_items k param
    else if type == k.cmd_remove_sessrul
    then rule_items k param
    else none

-- The outcome of pcrf_session_cache_fill_pspack: the packet, whose length is returned; -1; or,
-- through CHECK_FCT, a positive error code, with the buffer as it is then.
pub data Filled : Type 0 where
  packed : Text → Filled
  minus_one : Filled
  error_code : ℕ → Text → Filled

-- sizeof( mc_buf ) and sizeof( mc_attr ).
abbrev pub buf_size : ℕ
buf_size = 4096

abbrev pub attr_size : ℕ
attr_size = 256

-- The loop over the nodes: sendto() for each whose address inet_aton accepts (`some`).
unfoldable pub send_all : List (Option ℕ) → Text → List (ℕ × Text)
send_all [] msg = []
send_all (none ∷ ns) msg = send_all ns msg
send_all (some a ∷ ns) msg = (a, msg) ∷ send_all ns msg

module _ (p : PsPacket) (k : Codes) where
  -- CHECK_FCT( fill_payload ) and AddAttr for each value in turn.
  unfoldable pub add_items : List Item → Text → Filled
  add_items [] buf = packed buf
  add_items (it ∷ its) buf = elim (fill_payload attr_size it) [
    | none ↦ error_code einval buf
    | some payload ↦ elim (p.add_attr buf buf_size k.attr_avp payload) [
      | none ↦ minus_one
      | some next ↦ add_items its next
    ]
  ]

  unfoldable pub then_add : List Item → Filled → Filled
  unfolding add_items
  then_add its (packed buf) = add_items its buf
  then_add its minus_one = minus_one
  then_add its (error_code e buf) = error_code e buf

  unfoldable pub then_fail : Filled → Filled
  then_fail (packed buf) = minus_one
  then_fail minus_one = minus_one
  then_fail (error_code e buf) = error_code e buf

  -- pcrf_session_cache_fill_pspack; uiReqNum is never counted up.
  unfoldable pub fill_pspack : Text → Option SessionCache → ℕ → Option Text → Filled
  unfolding then_add then_fail command_items
  fill_pspack sid cache type param =
      let (code, buf) = p.init buf_size 0 type in
      if code == 0
      then (let started =
            add_items (record { vend_id = 0; avp_id = 263; content = sid } ∷ []) buf in
          elim (command_items k type cache param) [
            | some its ↦ then_add its started
            | none ↦ then_fail started
          ])
      else error_code code buf

  -- The bytes that pcrf_ipc_cmd2remote sends, if it gets as far: iPayloadLen of them, from mc_buf,
  -- which is the packet and behind it what was there before.
  unfoldable pub message_of : Filled → Option Text
  message_of (packed buf) = some buf
  message_of minus_one = none
  message_of (error_code e buf) = some (take e (buf ++ drop (length buf) p.stack))

  -- pcrf_ipc_cmd2remote: the datagrams, one for each node whose address inet_aton accepts (`some`).
  unfoldable pub cmd2remote :
      List (Option ℕ) → Text → Option SessionCache → ℕ → Option Text → List (ℕ × Text)
  unfolding fill_pspack message_of send_all
  cmd2remote nodes sid cache type param = elim (message_of (fill_pspack sid cache type param)) [
    | none ↦ []
    | some msg ↦ send_all nodes msg
  ]
