-- ===== src/Messages/Answer/Copied.antt =====
-- What pcrf_extract_req_data reads from the AVPs that the answer to an initial request takes over
-- from the request (src/pcrf_server.cpp).
use pcrf.Common.{
  ◌≡◌, refl, ap, ◌∙◌, Bool, true, false, Option, some, List, [], ◌∷◌, ◌==◌, if◌then◌else◌, ◌||◌,
}
use mathlib.Core.Path.{fun_ext}
use pcrf.Common.Text.{Text}
use pcrf.Types.{
  OtlValue, OtlText, null_text, to_otl, SessionInfo, RequestInfo, gx_procera, new_session_info,
  new_request_info,
}
use pcrf.Messages.{Avps, nil, ◌then_add◌}
use pcrf.Messages.Dictionary.{Headers, IsStandard, standard}
use pcrf.Messages.Qos.{
  DefaultBearer, QosInformation, null_bearer, null_qos_information, make_default_eps_bearer_qos,
  make_qos_information,
}
use pcrf.Messages.Qos.RoundTrip.{read_bearer, read_bitrates}
use pcrf.Messages.Features.{SupportedFeature}
use pcrf.Messages.Identity.{
  is_empty_value, make_subscription_id, procera_make_subscription_id, store_subscription_id,
}
use pcrf.Messages.Request.{MessageData, Library, new_message_data}
use pcrf.Messages.Extraction.{extract_req_data}
use pcrf.Messages.Extraction.RoundTrip.{
  and_then, extract-then_add, extract_req_data-nil, extract-make_supported_features,
  extract-make_default_eps_bearer_qos, extract-make_qos_information, extract-make_subscription_id,
}
use pcrf.Messages.Answer.{set_event_trigger, procera_avps, bearer_avps, copied_avps}

-- The values as they are read.
unfoldable pub read_default : OtlValue DefaultBearer → OtlValue DefaultBearer
read_default o = if o.is_null then null_bearer else to_otl (read_bearer o.v)

unfoldable pub read_qos : OtlValue QosInformation → OtlValue QosInformation
read_qos o = if o.is_null then null_qos_information else to_otl (read_bitrates o.v)

unfoldable pub read_identity : OtlText → OtlText
unfolding is_empty_value
read_identity o = if o.is_null || is_empty_value o.v then null_text else to_otl o.v

-- What is read of the session and of the request: from the answer to a Procera the trigger and the
-- subscriber, from another one nothing.
unfoldable pub read_info : MessageData → SessionInfo
unfolding read_identity
read_info d =
    if d.info.peer_dialect == gx_procera
    then record new_session_info {
      subscription_data = record new_session_info.subscription_data {
        end_user_imsi = read_identity d.info.subscription_data.end_user_imsi;
        end_user_e164 = read_identity d.info.subscription_data.end_user_e164;
      };
    }
    else new_session_info

unfoldable pub read_request : MessageData → RequestInfo
read_request d =
    if d.info.peer_dialect == gx_procera
    then record new_request_info { event_trigger = 777 ∷ [] }
    else new_request_info

abbrev stored :
    List SupportedFeature
    → SessionInfo
    → RequestInfo
    → OtlValue DefaultBearer
    → OtlValue QosInformation
    → MessageData
stored fs i r b q = record new_message_data {
  supported_features = fs;
  info = i;
  req = r;
  default_bearer = b;
  qos_information = q;
}

chain :
    (lib : Library) (l m : Avps) (d d' : MessageData) (r : Option MessageData)
    → extract_req_data lib l d ≡ some d'
    → extract_req_data lib m d' ≡ r
    → extract_req_data lib (l then_add m) d ≡ r
chain lib l m d d' r first second = extract-then_add lib l m d ∙ ap (and_then lib m) first ∙ second

default_read :
    (lib : Library) (is_null : Bool) (b : DefaultBearer) (fs : List SupportedFeature)
    (i : SessionInfo) (r : RequestInfo)
    → extract_req_data lib
        (make_default_eps_bearer_qos standard (record { v = b; is_null = is_null }))
        (stored fs i r null_bearer null_qos_information)
      ≡ some
          (stored fs i r (read_default (record { v = b; is_null = is_null })) null_qos_information)
unfolding read_default
default_read lib true b fs i r = extract-make_default_eps_bearer_qos lib true b _ refl
default_read lib false b fs i r = extract-make_default_eps_bearer_qos lib false b _ refl

qos_read :
    (lib : Library) (is_null : Bool) (q : QosInformation) (fs : List SupportedFeature)
    (i : SessionInfo) (r : RequestInfo) (b : OtlValue DefaultBearer)
    → extract_req_data lib
        (make_qos_information standard (record { v = q; is_null = is_null }))
        (stored fs i r b null_qos_information)
      ≡ some (stored fs i r b (read_qos (record { v = q; is_null = is_null })))
unfolding read_qos
qos_read lib true q fs i r b = extract-make_qos_information lib true q _ refl
qos_read lib false q fs i r b = extract-make_qos_information lib false q _ refl

bearer_read :
    (lib : Library) (d : MessageData) (fs : List SupportedFeature) (i : SessionInfo)
    (r : RequestInfo)
    → extract_req_data lib (bearer_avps standard d) (stored fs i r null_bearer null_qos_information)
      ≡ some (stored fs i r (read_default d.default_bearer) (read_qos d.qos_information))
unfolding bearer_avps
bearer_read lib d fs i r =
    chain lib _ _ _ _ _ (default_read lib d.default_bearer.is_null d.default_bearer.v fs i r) (
      qos_read lib d.qos_information.is_null d.qos_information.v fs i r
        (read_default d.default_bearer))

abbrev subscriber : OtlText → OtlText → SessionInfo
subscriber imsi e164 = record new_session_info {
  subscription_data = record new_session_info.subscription_data {
    end_user_imsi = imsi;
    end_user_e164 = e164;
  };
}

imsi_read :
    (lib : Library) (is_null : Bool) (t : Text) (fs : List SupportedFeature) (r : RequestInfo)
    → extract_req_data lib
        (make_subscription_id standard 1 (record { v = t; is_null = is_null }))
        (stored fs new_session_info r null_bearer null_qos_information)
      ≡ some (
          stored fs
            (subscriber (read_identity (record { v = t; is_null = is_null })) null_text)
            r
            null_bearer
            null_qos_information)
unfolding read_identity store_subscription_id
imsi_read lib true t fs r = extract-make_subscription_id lib 1 true t _
imsi_read lib false [] fs r = extract-make_subscription_id lib 1 false [] _
imsi_read lib false (c ∷ t) fs r = extract-make_subscription_id lib 1 false (c ∷ t) _

e164_read :
    (lib : Library) (is_null : Bool) (t : Text) (fs : List SupportedFeature) (r : RequestInfo)
    (imsi : OtlText)
    → extract_req_data lib
        (make_subscription_id standard 0 (record { v = t; is_null = is_null }))
        (stored fs (subscriber imsi null_text) r null_bearer null_qos_information)
      ≡ some (
          stored fs
            (subscriber imsi (read_identity (record { v = t; is_null = is_null })))
            r
            null_bearer
            null_qos_information)
unfolding read_identity store_subscription_id
e164_read lib true t fs r imsi = extract-make_subscription_id lib 0 true t _
e164_read lib false [] fs r imsi = extract-make_subscription_id lib 0 false [] _
e164_read lib false (c ∷ t) fs r imsi = extract-make_subscription_id lib 0 false (c ∷ t) _

trigger_read :
    (lib : Library) (fs : List SupportedFeature)
    → extract_req_data lib
        (set_event_trigger standard 777)
        (stored fs new_session_info new_request_info null_bearer null_qos_information)
      ≡ some (
          stored fs new_session_info
            (record new_request_info { event_trigger = 777 ∷ [] })
            null_bearer
            null_qos_information)
unfolding extract_req_data set_event_trigger standard
trigger_read lib fs = refl

procera_read :
    (lib : Library) (fs : List SupportedFeature) (is_procera : Bool) (imsi e164 : OtlText)
    → extract_req_data lib
        (if is_procera
          then set_event_trigger standard 777
            then_add procera_make_subscription_id standard imsi e164
          else nil)
        (stored fs new_session_info new_request_info null_bearer null_qos_information)
      ≡ some (
          stored fs
            (if is_procera
              then subscriber (read_identity imsi) (read_identity e164)
              else new_session_info)
            (if is_procera
              then record new_request_info { event_trigger = 777 ∷ [] }
              else new_request_info)
            null_bearer
            null_qos_information)
unfolding procera_make_subscription_id
procera_read lib fs false imsi e164 = extract_req_data-nil lib _
procera_read lib fs true imsi e164 = chain lib _ _ _ _ _ (trigger_read lib fs) (
    chain lib _ _ _ _ _ (imsi_read lib imsi.is_null imsi.v fs _)
      (e164_read lib e164.is_null e164.v fs _ _))

copied_read :
    (lib : Library) (d : MessageData)
    → extract_req_data lib (copied_avps standard d) new_message_data
      ≡ some (
          stored d.supported_features
            (read_info d)
            (read_request d)
            (read_default d.default_bearer)
            (read_qos d.qos_information))
unfolding copied_avps procera_avps read_info read_request
copied_read lib d =
    chain lib _ _ _ _ _ (extract-make_supported_features lib d.supported_features new_message_data)
      (chain lib _ _ _ _ _
        (procera_read lib d.supported_features (d.info.peer_dialect == gx_procera)
          d.info.subscription_data.end_user_imsi d.info.subscription_data.end_user_e164)
        (bearer_read lib d _ _ _))

-- The AVPs that the answer to an initial request takes over, read as a request is read, for the
-- codes and vendors of the standards: the features are those of the request, the bearer and the bit
-- rates are its values without what was null in them, and for a Procera the trigger 777 and the IMSI
-- and the MSISDN, unless null or empty. Nothing else is read.
pub extract_req_data-copied_avps :
    (lib : Library) (new : Headers) (d : MessageData)
    → IsStandard new
    → extract_req_data lib (copied_avps new d) new_message_data
      ≡ some (record new_message_data {
        supported_features = d.supported_features;
        info = read_info d;
        req = read_request d;
        default_bearer = read_default d.default_bearer;
        qos_information = read_qos d.qos_information;
      })
extract_req_data-copied_avps lib new d known = rw (fun_ext known) (copied_read lib d)
