-- ===== src/Ipc/Process.antt =====
-- The receiving side of src/pcrf_ipc.cpp: pcrf_ipc_process_request.
use pcrf.Common.{ℕ, Bool, true, false, Option, none, some, List, [], ◌∷◌, ◌++◌, if◌then◌else◌, ◌==◌}
use pcrf.Common.Text.{Text, bytes, text_eq}
use pcrf.Common.Lists.{length}
use pcrf.Types.{OtlText, SessionCache, new_session_cache, to_otl}
use pcrf.Peer.{PeerInfo, peer_dialect_ret}
use pcrf.Session.Store.{Store, insert_local, remove_local}
use pcrf.RuleCache.{SessRules, insert_rule_local, remove_rule_local, remove_sess_local}
use pcrf.Tracer
use pcrf.Tracer.{Tracer, set_condition, reset_condition, set_session_id, reset_session_id}
use pcrf.Ipc.Payload.{Item, read_payload, read_u32}
use pcrf.Ipc.Codes.{Codes, PsPacket}

-- The state of a node that the commands work on.
pub record Node : Type 0 where
  pub store : Store
  pub rules : SessRules
  pub peers : List PeerInfo
  pub tracer : Tracer

-- The locals that the loop over the attributes fills.
pub record Request : Type 0 where
  pub session_id : Text
  pub adm_cmd : Text
  pub application_id : ℕ
  pub cache : SessionCache
  pub parent_id : Option Text
  pub rule_name : Option Text
  pub monit_keys : Option (List Text)

abbrev pub new_request : Request
new_request = record {
  session_id = [];
  adm_cmd = [];
  application_id = 0;
  cache = new_session_cache;
  parent_id = none;
  rule_name = none;
  monit_keys = none;
}

-- `v.insert( 0, data )` and `set_non_null()`: a repeated attribute is put in front.
unfoldable pub put_front : Text → OtlText → OtlText
put_front x f = to_otl (x ++ f.v)

unfoldable add_key : Text → Option (List Text) → Option (List Text)
add_key x none = some (x ∷ [])
add_key x (some l) = some (l ++ x ∷ [])

-- `case 0`, the Diameter AVPs.
unfoldable read_diameter : ℕ → Text → Request → Request
unfolding put_front
read_diameter avp x r =
    if avp == 8
    then record r { cache = record r.cache { framed_ip_addr = put_front x r.cache.framed_ip_addr } }
    else if avp == 30
    then record r {
      cache = record r.cache { called_station_id = put_front x r.cache.called_station_id };
    }
    else if avp == 263
    then record r { session_id = x ++ r.session_id }
    else if avp == 258
    then (if length x == 4 then record r { application_id = read_u32 x } else r)
    else if avp == 264
    then record r { cache = record r.cache { origin_host = put_front x r.cache.origin_host } }
    else if avp == 296
    then record r { cache = record r.cache { origin_realm = put_front x r.cache.origin_realm } }
    else r

-- `case 10415`, the 3GPP AVPs.
unfoldable read_3gpp : ℕ → Text → Request → Request
unfolding put_front add_key
read_3gpp avp x r =
    if avp == 6
    then record r { cache = record r.cache { sgsn_ip_addr = put_front x r.cache.sgsn_ip_addr } }
    else if avp == 18
    then record r { cache = record r.cache { sgsn_mccmnc = put_front x r.cache.sgsn_mccmnc } }
    else if avp == 1027
    then (if length x == 4
        then record r { cache = record r.cache { ip_can_type_code = read_u32 x } }
        else r)
    else if avp == 1032
    then (if length x == 4
        then record r { cache = record r.cache { rat_type_code = read_u32 x } }
        else r)
    else if avp == 1066
    then record r { monit_keys = add_key x r.monit_keys }
    else r

-- `case 65535`, the Tenet AVPs.
unfoldable read_tenet : Codes → ℕ → Text → Request → Request
unfolding put_front
read_tenet k avp x r =
    if avp == k.ps_subscr
    then record r { cache = record r.cache { subscriber_id = put_front x r.cache.subscriber_id } }
    else if avp == k.attr_cgi
    then record r { cache = record r.cache { cgi = put_front x r.cache.cgi } }
    else if avp == k.attr_ecgi
    then record r { cache = record r.cache { ecgi = put_front x r.cache.ecgi } }
    else if avp == k.attr_tai
    then record r { cache = record r.cache { tai = put_front x r.cache.tai } }
    else if avp == k.attr_imei
    then record r { cache = record r.cache { imeisv = put_front x r.cache.imeisv } }
    else if avp == k.attr_imsi
    then record r { cache = record r.cache { end_user_imsi = put_front x r.cache.end_user_imsi } }
    else if avp == k.attr_e164
    then record r { cache = record r.cache { end_user_e164 = put_front x r.cache.end_user_e164 } }
    else if avp == k.attr_pses
    then record r { parent_id = some x }
    else if avp == k.attr_ipcantype
    then record r { cache = record r.cache { ip_can_type = put_front x r.cache.ip_can_type } }
    else if avp == k.attr_rattype
    then record r { cache = record r.cache { rat_type = put_front x r.cache.rat_type } }
    else if avp == k.attr_rulnm
    then record r { rule_name = some x }
    else r

-- The switch on the vendor.
unfoldable pub read_item : Codes → Item → Request → Request
unfolding read_diameter read_3gpp read_tenet
read_item k it r =
    if it.vend_id == 0
    then read_diameter it.avp_id it.content r
    else if it.vend_id == 10415
    then read_3gpp it.avp_id it.content r
    else if it.vend_id == 65535
    then read_tenet k it.avp_id it.content r
    else r

-- The switch on an attribute; `none` where read_payload is.
unfoldable pub read_attr : Codes → ℕ → Text → Request → Option Request
unfolding read_item put_front add_key
read_attr k id content r =
    if id == k.ps_admcmd
    then some (record r { adm_cmd = content ++ r.adm_cmd })
    else if id == k.ps_subscr
    then some (record r {
      cache = record r.cache { subscriber_id = put_front content r.cache.subscriber_id };
    })
    else if id == 1066
    then some (record r { monit_keys = add_key content r.monit_keys })
    else if id == k.attr_avp
    then (elim (read_payload content) [ none ↦ none | some it ↦ some (read_item k it r) ])
    else some r

-- The loop over the attributes.
unfoldable pub read_attrs : Codes → List (ℕ × Text) → Request → Option Request
unfolding read_attr
read_attrs k [] r = some r
read_attrs k ((id, content) ∷ l) r = elim (read_attr k id content r) [
  | none ↦ none
  | some r' ↦ read_attrs k l r'
]

-- What a command asks of code that answers the sender and leaves the state of the node alone:
-- pcrf_send_umi_rar, pcrf_session_cache_get_info_from_cache.
pub data Answer : Type 0 where
  no_answer : Answer
  send_umi_rar : OtlText → Option (List Text) → Answer
  get_info_from_cache : Text → Answer

abbrev pub is_nil {ℓ} : {A : Type ℓ} → List A → Bool
is_nil [] = true
is_nil (_ ∷ _) = false

-- The sequence of calls of `tracer.set` and of `tracer.reset`, one for each value that is given;
-- `number` is the condition type that the branch passes with the E164 number.
unfoldable apply_conditions :
    (Tracer.Condition → Tracer → Tracer)
    → (Text → Tracer.Condition)
    → (Option Text → Tracer → Tracer)
    → Request
    → Tracer
    → Tracer
apply_conditions condition number session r t =
    let t1 =
      if r.cache.end_user_imsi.is_null
      then t
      else condition (Tracer.imsi r.cache.end_user_imsi.v) t in
    let t2 =
      if r.cache.called_station_id.is_null
      then t1
      else condition (Tracer.apn r.cache.called_station_id.v) t1 in
    let t3 =
      if r.cache.end_user_e164.is_null then t2 else condition (number r.cache.end_user_e164.v) t2 in
    let t4 =
      if r.application_id == 0 then t3 else condition (Tracer.application_id r.application_id) t3 in
    if is_nil r.session_id then t4 else session (some r.session_id) t4

-- `case ADMIN_REQ`. `tracer.reset` passes the E164 number as a condition on the IMSI.
unfoldable admin_request : Request → Tracer → Tracer
unfolding apply_conditions
admin_request r t =
    if text_eq r.adm_cmd (bytes "tracer.set")
    then apply_conditions set_condition Tracer.e164 set_session_id r t
    else if text_eq r.adm_cmd (bytes "tracer.reset")
    then apply_conditions reset_condition Tracer.imsi reset_session_id r t
    else t

unfoldable pub with_rule : (Text → SessRules → SessRules) → Option Text → SessRules → SessRules
with_rule f none m = m
with_rule f (some name) m = f name m

-- The switch on the type of the request.
unfoldable pub execute : Codes → ℕ → Request → Node → Node × Answer
unfolding admin_request with_rule
execute k type r n =
    if type == k.cmd_insert_session
    then (
      record n {
        store =
            insert_local r.session_id r.cache r.parent_id
              (peer_dialect_ret n.peers r.cache.origin_host.v r.cache.origin_realm.v) n.store;
      },
      no_answer,
    )
    else if type == k.cmd_remove_session
    then (
      record n {
        store = (remove_local r.session_id n.store).1;
        rules = remove_sess_local r.session_id n.rules;
      },
      no_answer,
    )
    else if type == k.cmd_insert_sessrul
    then (
      record n { rules = with_rule (insert_rule_local r.session_id) r.rule_name n.rules },
      no_answer,
    )
    else if type == k.cmd_remove_sessrul
    then (
      record n { rules = with_rule (remove_rule_local r.session_id) r.rule_name n.rules },
      no_answer,
    )
    else if type == k.cmd_sess_usage
    then (n, send_umi_rar r.cache.subscriber_id r.monit_keys)
    else if type == k.get_info_from_cache
    then (n, get_info_from_cache r.session_id)
    else if type == k.admin_req
    then (record n { tracer = admin_request r n.tracer }, no_answer)
    else (n, no_answer)

-- pcrf_ipc_process_request. A buffer that does not parse is dropped; `none` where read_payload is.
unfoldable pub process_request : PsPacket → Codes → Text → Node → Option (Node × Answer)
unfolding read_attrs execute
process_request p k buf n = elim (p.parse buf) [
  | none ↦ some (n, no_answer)
  | some q ↦ elim (read_attrs k q.attrs new_request) [
    | none ↦ none
    | some r ↦ some (execute k q.req_type r n)
  ]
]
