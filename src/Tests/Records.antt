-- ===== src/Tests/Records.antt =====
-- The theorems on the records of sessions and on linked sessions, and runs of their model.
use pcrf.Common.{◌≡◌, refl, some, List, [], ◌∷◌}
use pcrf.Common.Text.{bytes, text_eq}
use pcrf.Common.Map.{find}
use pcrf.Common.Decimal.{decimal}
use pcrf.Types.{
  SessionInfo, SessionCache, new_session_info, new_session_cache, to_otl, initial_request, rx_ims,
}
use pcrf.Peer.{PeerInfo}
use pcrf.Session.Links.{get_linked_child_session_list}
use pcrf.Session.Store.{Store}
use pcrf.Linked.{linked_session_terminate, linked_session_rule_report}
use pcrf.Linked.Reuse.{AllOf, AllOf-linked_session}
use pcrf.Cdr.{make_record, otl_text, time_stamp, address_text}
use pcrf.Cdr.Records.{is_plain, fields_of, read_fields, read_fields-make_record}

abbrev session : SessionInfo
session = record new_session_info {
  session_id = bytes "gx;1";
  imei = to_otl (bytes "35");
  called_station_id = to_otl (bytes "net");
}

read_fields-make_record_example :
    read_fields (make_record initial_request session 5 (some (7, 2500))) ≡ (
      bytes "1",
      bytes "gx;1" ∷ (bytes "7002" ∷ ([] ∷ (bytes "5" ∷ (bytes "35" ∷ (bytes "net" ∷ []))))),
    )
unfolding is_plain otl_text fields_of time_stamp address_text decimal
read_fields-make_record_example =
    read_fields-make_record session (some (7, 2500))
      (record { id_plain = refl; imsi_plain = refl; imei_plain = refl; apn_plain = refl })
      initial_request 5

-- Two Rx sessions of different hosts, linked to one Gx session.
abbrev first_rx : SessionCache
first_rx = record new_session_cache {
  origin_host = to_otl (bytes "af1");
  origin_realm = to_otl (bytes "net");
}

abbrev store : Store
store = record {
  sessions =
      (bytes "rx;1", first_rx)
      ∷ ((bytes "rx;2", record first_rx { origin_host = to_otl (bytes "af2") }) ∷ []);
  framed_ip = [];
  links = record { parent = (bytes "gx;1", bytes "rx;1" ∷ (bytes "rx;2" ∷ [])) ∷ []; child = [] };
  subscribers = [];
}

abbrev peers : List PeerInfo
peers =
    record {
      host_name = to_otl (bytes "af1");
      host_real = to_otl (bytes "net");
      peer_dialect = rx_ims;
      is_connected = 1;
    }
    ∷ []

AllOf-linked_session_example :
    AllOf
      (bytes "rx;1")
      (to_otl (bytes "af1"))
      (to_otl (bytes "net"))
      (linked_session_terminate store peers (bytes "gx;1"))
    × AllOf
        (bytes "rx;1")
        (to_otl (bytes "af1"))
        (to_otl (bytes "net"))
        (linked_session_rule_report store peers (bytes "gx;1"))
unfolding get_linked_child_session_list find text_eq
AllOf-linked_session_example =
    AllOf-linked_session store peers (bytes "gx;1") b'r' (bytes "x;1") first_rx (bytes "rx;2" ∷ [])
      refl refl refl refl
