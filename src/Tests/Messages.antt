-- ===== src/Tests/Messages.antt =====
-- The theorems on src/pcrf_ipc.cpp, with the packets and numbers of Packets.
use pcrf.Common.{◌≡◌, refl, none, some, [], ◌∷◌, arith}
use pcrf.Common.Text.{Text, bytes}
use pcrf.Common.Lists.{length}
use pcrf.Types.{SessionInfo, new_session_info, SessionCache, new_session_cache, to_otl}
use pcrf.Session.Store.{cache_of, cache_of_session}
use pcrf.RuleCache.Contents.{rules_of}
use pcrf.Cluster.{session_cache_insert, session_cache_remove}
use pcrf.Cluster.Agreement.{session_cache_insert-agrees, session_cache_remove-agrees}
use pcrf.Ipc.Payload.{payload_bytes, fill_payload, u32, u16}
use pcrf.Ipc.Pack.{
  Filled, packed, minus_one, error_code, fill_pspack, add_items, then_add, command_items,
  session_items, field_item, code_item, option_item, send_all, cmd2remote,
}
use pcrf.Ipc.Process.{Node}
use pcrf.Ipc.Failures.{cmd2remote-long_session_id}
use pcrf.Tests.Packets.{codes, labels, packets, zeros, laws, add_packet_attr}

abbrev sid : Text
sid = bytes "gx;1"

abbrev cache : SessionCache
cache = record new_session_cache {
  subscriber_id = to_otl (bytes "42");
  framed_ip_addr = to_otl (bytes "10.0.0.1");
  rat_type_code = 1004;
}

abbrev node : Node
node = record {
  store = record {
    sessions = [];
    framed_ip = [];
    links = record { parent = []; child = [] };
    subscribers = [];
  };
  rules = [];
  peers = [];
  tracer = record { session_ids = []; application_ids = []; imsis = []; e164s = []; apns = [] };
}

abbrev message_in : Filled → Text
message_in (packed msg) = msg
message_in minus_one = []
message_in (error_code e msg) = []

abbrev remove_message : Text
remove_message = message_in (fill_pspack packets codes sid none 2 none)

abbrev long_sid : Text
long_sid = zeros 250

cmd2remote-long_session_id_example :
    let message = 0 ∷ 0 ∷ 2 ∷ zeros 19 in
    (cmd2remote packets codes (some 1 ∷ none ∷ some 2 ∷ []) long_sid none 2 none
      ≡ send_all (some 1 ∷ none ∷ some 2 ∷ []) message)
    × (length message ≡ 22)
cmd2remote-long_session_id_example =
    cmd2remote-long_session_id packets codes (some 1 ∷ none ∷ some 2 ∷ []) long_sid none 2 none
      (0 ∷ 0 ∷ 2 ∷ []) (omega arith) (omega arith) refl refl

abbrev other_info : SessionInfo
other_info = record new_session_info {
  subscriber_id = bytes "42";
  framed_ip_address = to_otl (bytes "10.0.0.1");
}

abbrev info_message : Text
info_message = message_in (fill_pspack packets codes sid (some (cache_of other_info none)) 1 none)

session_cache_insert-agrees_example :
    (session_cache_insert packets codes (some 1 ∷ []) sid other_info none none node).1
    ≡ send_all (some 1 ∷ []) info_message
unfolding cache_of cache_of_session fill_pspack add_items then_add command_items session_items
    field_item code_item option_item fill_payload payload_bytes u16 u32 add_packet_attr
session_cache_insert-agrees_example =
    (session_cache_insert-agrees packets codes laws labels (some 1 ∷ []) sid other_info none none
      info_message node node refl (omega arith) (omega arith) (ground arith) refl).0

session_cache_remove-agrees_example :
    rules_of sid (session_cache_remove packets codes (some 1 ∷ []) sid node).0.rules ≡ []
unfolding fill_pspack add_items then_add command_items fill_payload payload_bytes u16
    add_packet_attr
session_cache_remove-agrees_example =
    (session_cache_remove-agrees packets codes laws labels (some 1 ∷ []) sid remove_message node
      node (omega arith) refl).2
