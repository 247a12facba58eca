-- ===== src/Lib.antt =====
-- A model of the PCRF module for freeDiameter (src/), and what is proved of it.
--
-- The program answers Gx and Rx requests of gateways with the rules of a subscriber. It keeps the
-- sessions in a cache that all nodes of a cluster share by messages, the rules installed for each
-- session in a second cache, and reads profiles and rules from a database.
--
-- Which file models what:
-- - Common/: texts as lists of bytes, lists and maps of the standard library, tests, integers.
-- - Types: the structures of src/app_pcrf_header.h and src/pcrf_session_cache.h. An otl_value is a
--   value with its null indicator. Members that no modelled operation touches are left out.
-- - Session/: src/pcrf_session_cache.cpp (Store: insert_local, get, remove_local,
--   update_some_values) over the three indexes of src/pcrf_session_cache_index.cpp (FramedIp,
--   Subscribers, Links), and the searches by address of src/pcrf_server.cpp (Store/Search).
-- - RuleCache: src/pcrf_session_rule_cache.cpp.
-- - Rules/: src/cache/pcrf_rule_cache.cpp, the choice of rules and of actions in
--   src/pcrf_server.cpp, and pcrf_client_is_any_changes of src/pcrf_client.cpp.
-- - Peer: src/pcrf_peer.cpp.
-- - Tracer: the conditions of src/pcrf_tracer.cpp.
-- - Ipc/: src/pcrf_ipc.cpp, from pcrf_ipc_cmd2remote on one node (Pack) to
--   pcrf_ipc_process_request on another (Process), which calls the session cache, the rule cache,
--   the peers and the tracer.
-- - Cluster: pcrf_session_cache_insert and pcrf_session_cache_remove, which do both.
-- - Refresh/: the local refresh queue and the decision for each session of
--   pcrf_client_operate_refqueue_record in src/pcrf_client.cpp, which puts the session cache, the
--   peers, the rule cache and the choice of rules together.
-- - Subscribers: the maps and the look-up of src/cache/pcrf_subscriber_cache.cpp.
-- - Procera/: the rules that src/procera/pcrf_procera.cpp makes of device, APN and location,
--   and its reports of tethering (Tethering).
-- - SqlQueue/: src/pcrf_sql_queue.cpp: the queue that pcrf_sql_queue_enqueue chooses (Number, Choice,
--   Order), the pass of a worker over its queue (Pass, Commits, Accounts, Durable) and its rounds
--   (Worker, Delivery).
-- - Uli/: src/pcrf_ULI.cpp, from the bytes of the AVP (Memory) to the text (Names) and to the rule
--   that src/procera/pcrf_procera.cpp makes of it (Sectors).
-- - Selector/: src/data_proc/pcrf_defaultRuleSelector.cpp.
-- - Timed/: src/data_proc/pcrf_timed_oper.cpp, the two threads of a request as steps (Protocol) and
--   what they leave (Gathering, Endings, Quota); it uses the choice of rules and the selector.
-- - Linked/: src/pcrf_linked_session.cpp, over the session cache, its links and the peers.
-- - Cdr/: the records (Records) and the times of new files (Rotation) of src/pcrf_cdr.cpp.
-- - Gx/: app_pcrf_ccr_cb of src/pcrf_server.cpp, over the caches, the subscribers, the peers and the
--   linked sessions: what it keeps of its locals (Kept), what it does to the cached sessions
--   (Lifetime), and the core session that it refers to (Core); and the whole exchange, from the
--   AVPs of the request to those of the answer (Exchange).
-- - Messages/: Diameter messages as lists of AVPs. Dictionary: the AVPs that src/app_pcrf_dict.cpp looks
--   up. Qos, Features, Identity, Usage: the groups that src/pcrf_server.cpp reads and makes. Address:
--   src/pcrf_avp_oper.cpp. Rules and Charging: pcrf_make_QoSI, pcrf_make_CRD, pcrf_make_CRI and
--   pcrf_make_CRR. Request and Extraction: pcrf_extract_req_data. Answer: the AVPs that app_pcrf_ccr_cb
--   puts into its answer, over all of these.
-- - DbPool/: pcrf_db_pool_get and pcrf_db_pool_rel of src/pcrf_db_pool.cpp as steps of threads.
-- - Tests/: the theorems at concrete inputs.
--
-- How the code is rendered: a function that changes a global takes the state and returns it; a
-- function that fails returns its code with the state, or an Option. The operations on the caches
-- run under one mutex each, so they are single steps; locking is assumed to succeed. The
-- pool, where a scan and a release interleave, and the two threads of a request have step
-- relations. A std::map is an association list
-- whose order is not observed, a std::set is kept in the order of its iteration. An int32_t is its
-- bit pattern, but for the precedence level, which is compared and is an integer. The only
-- bound that is chosen is the number of turns of the loop of pcrf_db_pool_get: the length of the
-- list, as each turn goes on to the next entry.
--
-- A worker of the SQL queue is given what it meets at each request and in each round: whether the
-- statement throws, whether the connection works, the time. Its rounds are a list, and the requests
-- that are added up to the end of a pass belong to its round. A commit keeps the statements since
-- the last one, a rollback discards them, and a session that is found lost takes with it what is not
-- committed. Numbers of the C library keep their widths: strtol its
-- bounds of 64 bits, the index its 32 bits.
--
-- Parameters: the class CPSPacket and the numbers of the pspacket library are records (Ipc/Codes),
-- with the laws that a built packet parses to its attributes and that the labels of a switch are
-- distinct; both are instantiated in Tests/Packets. The headers that freeDiameter gives to the AVPs
-- of its dictionary are a function (Messages/Dictionary), with the law that they are the codes that
-- src/app_pcrf_dict.cpp names; what the library knows of enumerations and addresses is a record
-- (Messages/Request). Rows of database queries are arguments.
--
-- Not modelled: the sending of Diameter messages and the entries that are added to the dictionary
-- (freeDiameter), the SQL statements and connections (OTL), sockets, log and statistics, the
-- configuration parser; and, so far, the requests that src/pcrf_client.cpp and src/pcrf_umi_rar.cpp
-- send, the change of location of Procera and the CRC.
pub mod Common
pub mod Types
pub mod Peer
pub mod Session
pub mod SqlQueue
pub mod Tracer
pub mod RuleCache
pub mod Rules
pub mod Selector
pub mod Timed
pub mod Procera
pub mod Uli
pub mod Refresh
pub mod Linked
pub mod Cdr
pub mod Gx
pub mod Messages
pub mod Subscribers
pub mod Cluster
pub mod DbPool
pub mod Tests
pub mod Ipc
