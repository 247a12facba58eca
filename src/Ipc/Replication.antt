-- ===== src/Ipc/Replication.antt =====
-- The commands that one node of src/pcrf_ipc.cpp sends, and what another node makes of them.
use mathlib.Core.List.{append-nil}
use pcrf.Common.{
  ℕ, ◌+◌, ◌<◌, ◌≡◌, refl, ◌∙◌, Option, none, some, List, [], ◌∷◌, ◌++◌, arith, if◌then◌else◌, ◌==◌,
  Option-cases, inl, inr, ◌⊎◌,
}
use pcrf.Common.Text.{Text}
use pcrf.Common.Lists.{length}
use pcrf.Types.{OtlText, SessionCache, null_text}
use pcrf.Peer.{peer_dialect_ret}
use pcrf.Session.Store.{insert_local, remove_local}
use pcrf.RuleCache.{insert_rule_local, remove_rule_local, remove_sess_local}
use pcrf.Ipc.Payload.{Item, fill_payload}
use pcrf.Ipc.Codes.{Codes, SwitchLabels, PsPacket, PsPacketLaws, Parsed}
use pcrf.Ipc.Pack.{
  packed, session_items, command_items, add_items, then_add, fill_pspack, buf_size, attr_size,
  option_item, rule_items,
}
use pcrf.Ipc.Process.{
  Node, no_answer, new_request, put_front, read_attrs, execute, process_request, read_item,
  with_rule,
}
use pcrf.Ipc.Delivery.{Fits, read_items, attrs_of, parse-add_items, read_attrs-attrs_of}
use pcrf.Ipc.Fields.{
  received, or_parent, read-subscriber_id, read-framed_ip_addr, read-called_station_id,
  read-ip_can_type_code, read-ip_can_type, read-sgsn_mccmnc, read-sgsn_ip_addr, read-rat_type_code,
  read-rat_type, read-origin_host, read-origin_realm, read-cgi, read-ecgi, read-tai, read-imeisv,
  read-end_user_imsi, read-end_user_e164, read-parent_id, read-rule_name,
}

-- A field as it arrives: the value of a null field is not sent.
unfoldable pub delivered_field : OtlText → OtlText
delivered_field f = if f.is_null then null_text else f

-- The record as it arrives.
unfoldable pub delivered : SessionCache → SessionCache
unfolding delivered_field
delivered c = record {
  subscriber_id = delivered_field c.subscriber_id;
  framed_ip_addr = delivered_field c.framed_ip_addr;
  called_station_id = delivered_field c.called_station_id;
  ip_can_type = delivered_field c.ip_can_type;
  sgsn_mccmnc = delivered_field c.sgsn_mccmnc;
  sgsn_ip_addr = delivered_field c.sgsn_ip_addr;
  rat_type = delivered_field c.rat_type;
  origin_host = delivered_field c.origin_host;
  origin_realm = delivered_field c.origin_realm;
  cgi = delivered_field c.cgi;
  ecgi = delivered_field c.ecgi;
  tai = delivered_field c.tai;
  imeisv = delivered_field c.imeisv;
  end_user_imsi = delivered_field c.end_user_imsi;
  end_user_e164 = delivered_field c.end_user_e164;
  ip_can_type_code = c.ip_can_type_code;
  rat_type_code = c.rat_type_code;
}

received-null_text : (f : OtlText) → received f null_text ≡ delivered_field f
unfolding delivered_field put_front
received-null_text f = ground (arith, append-nil f.v)

or_parent-none : (par : Option Text) → or_parent par none ≡ par
or_parent-none none = refl
or_parent-none (some x) = refl

read_items-session_items :
    (k : Codes) (c : SessionCache) (par : Option Text) (sid : Text)
    → SwitchLabels k
    → c.ip_can_type_code < 4294967296
    → c.rat_type_code < 4294967296
    → read_items k (session_items k c par) (record new_request { session_id = sid })
      ≡ record new_request { session_id = sid; cache = delivered c; parent_id = par }
unfolding session_items delivered read_items
read_items-session_items k c par sid labels n m =
    rw
      (
        read-subscriber_id k labels,
        read-framed_ip_addr k labels,
        read-called_station_id k labels,
        read-ip_can_type_code k labels,
        n,
        read-ip_can_type k labels,
        read-sgsn_mccmnc k labels,
        read-sgsn_ip_addr k labels,
        read-rat_type_code k labels,
        m,
        read-rat_type k labels,
        read-origin_host k labels,
        read-origin_realm k labels,
        read-cgi k labels,
        read-ecgi k labels,
        read-tai k labels,
        read-imeisv k labels,
        read-end_user_imsi k labels,
        read-end_user_e164 k labels,
        read-parent_id k labels,
      )
      (simp (received-null_text, or_parent-none))

-- The buffer that fill_pspack starts from, and what it parses to once it is packed.
module _ (p : PsPacket) (k : Codes) (laws : PsPacketLaws p) (labels : SwitchLabels k) where
  read-packed :
      (type : ℕ) (its : List Item) (buf msg : Text)
      → p.init buf_size 0 type ≡ (0, buf)
      → Fits its
      → add_items p k its buf ≡ packed msg
      → (q : Parsed) × (p.parse msg ≡ some q)
        × (q.req_type ≡ type)
        × (read_attrs k q.attrs new_request ≡ some (read_items k its new_request))
  read-packed type its buf msg started f e = (
    record { req_num = 0; req_type = type; attrs = attrs_of k.attr_avp its },
    parse-add_items p k laws its buf msg (record { req_num = 0; req_type = type; attrs = [] }) f
        (laws.parse-init buf_size 0 type buf started) tt e,
    refl,
    read_attrs-attrs_of k its new_request labels f,
  )

  process-packed :
      (type : ℕ) (its : List Item) (buf msg : Text) (n : Node)
      → p.init buf_size 0 type ≡ (0, buf)
      → Fits its
      → add_items p k its buf ≡ packed msg
      → process_request p k msg n ≡ some (execute k type (read_items k its new_request) n)
  unfolding process_request
  process-packed type its buf msg n started f e =
      let (q, parsed, typed, read) = read-packed type its buf msg started f e in
      ground (arith, parsed, typed, read)

  -- The two calls that add_items makes in fill_pspack are one.
  then_add-add_items :
      (its jts : List Item) (buf : Text)
      → then_add p k jts (add_items p k its buf) ≡ add_items p k (its ++ jts) buf
  unfolding then_add add_items
  then_add-add_items [] jts buf = refl
  then_add-add_items (it ∷ its) jts buf = elim (Option-cases (fill_payload attr_size it)) [
    | inl long ↦ ground (arith, long)
    | inr (x, filled) ↦ elim (Option-cases (p.add_attr buf buf_size k.attr_avp x)) [
      | inl full ↦ ground (arith, filled, full)
      | inr (next, added) ↦ ground (arith, filled, added, then_add-add_items its jts next)
    ]
  ]

  abbrev sid_item : Text → Item
  sid_item sid = record { vend_id = 0; avp_id = 263; content = sid }

  -- What a packet that fill_pspack has built holds, and where it started.
  fill_pspack-packed :
      (sid : Text) (cache : Option SessionCache) (type : ℕ) (param : Option Text) (its : List Item)
      (msg : Text)
      → command_items k type cache param ≡ some its
      → fill_pspack p k sid cache type param ≡ packed msg
      → (buf : Text) × (p.init buf_size 0 type ≡ (0, buf))
        × (add_items p k (sid_item sid ∷ its) buf ≡ packed msg)
  unfolding fill_pspack
  fill_pspack-packed sid cache type param its msg items e = (
    (p.init buf_size 0 type).1,
    ground (arith, items),
    ground (arith, items, then_add-add_items (sid_item sid ∷ []) its (p.init buf_size 0 type).1),
  )

  -- A packet that fill_pspack builds is executed by the receiver as its command, on the request
  -- that the items make.
  process-fill_pspack :
      (sid : Text) (cache : Option SessionCache) (type : ℕ) (param : Option Text) (its : List Item)
      (msg : Text) (n : Node)
      → command_items k type cache param ≡ some its
      → Fits (sid_item sid ∷ its)
      → fill_pspack p k sid cache type param ≡ packed msg
      → process_request p k msg n
        ≡ some (execute k type (read_items k its (record new_request { session_id = sid })) n)
  unfolding read_items read_item
  process-fill_pspack sid cache type param its msg n items f e =
      let (buf, started, added) = fill_pspack-packed sid cache type param its msg items e in
      process-packed type (sid_item sid ∷ its) buf msg n started f added ∙ rw (append-nil sid)

  -- Where a node has built PCRF_CMD_INSERT_SESSION for a session, the node that receives the
  -- packet stores the same record, without the values of the null fields, links it to the same
  -- parent, and takes the dialect from its own list of peers.
  pub insert_session-delivered :
      (sid : Text) (c : SessionCache) (par : Option Text) (msg : Text) (n : Node)
      → c.ip_can_type_code < 4294967296
      → c.rat_type_code < 4294967296
      → Fits (sid_item sid ∷ session_items k c par)
      → fill_pspack p k sid (some c) k.cmd_insert_session par ≡ packed msg
      → process_request p k msg n
        ≡ some (
          record n {
            store =
                insert_local sid
                  (delivered c)
                  par
                  (peer_dialect_ret n.peers
                    (delivered_field c.origin_host).v
                    (delivered_field c.origin_realm).v)
                  n.store;
          },
          no_answer,
        )
  unfolding command_items execute delivered
  insert_session-delivered sid c par msg n i r f e =
      process-fill_pspack sid (some c) k.cmd_insert_session par (session_items k c par) msg n
        (ground (arith)) f e
      ∙ rw (read_items-session_items k c par sid labels i r) (ground (arith))

  -- Where a node has built PCRF_CMD_REMOVE_SESSION, the node that receives the packet removes the
  -- session from its cache and forgets the rules of the session.
  pub remove_session-delivered :
      (sid : Text) (msg : Text) (n : Node)
      → length sid + 8 < 65536
      → fill_pspack p k sid none k.cmd_remove_session none ≡ packed msg
      → process_request p k msg n
        ≡ some (
          record n { store = (remove_local sid n.store).1; rules = remove_sess_local sid n.rules },
          no_answer,
        )
  unfolding command_items execute read_items
  remove_session-delivered sid msg n f e =
      process-fill_pspack sid none k.cmd_remove_session none [] msg n (ground (arith, labels.2))
        (omega arith, omega arith, f, tt) e
      ∙ ground (arith, labels.2)

  -- Where a node has built PCRF_CMD_INSERT_SESSRUL or PCRF_CMD_REMOVE_SESSRUL for a rule, the node
  -- that receives the packet inserts or removes that rule of that session in its cache.
  pub rule_commands-delivered :
      (sid name msg : Text) (type : ℕ) (n : Node)
      → (type ≡ k.cmd_insert_sessrul) ⊎ (type ≡ k.cmd_remove_sessrul)
      → Fits (sid_item sid ∷ option_item 65535 k.attr_rulnm (some name))
      → fill_pspack p k sid none type (some name) ≡ packed msg
      → process_request p k msg n
        ≡ some (
          record n {
            rules =
                if type == k.cmd_insert_sessrul
                then insert_rule_local sid name n.rules
                else remove_rule_local sid name n.rules;
          },
          no_answer,
        )
  unfolding command_items execute rule_items with_rule
  rule_commands-delivered sid name msg type n t f e =
      process-fill_pspack sid none type (some name) (option_item 65535 k.attr_rulnm (some name)) msg
        n (ground (arith, labels.2)) f e
      ∙ rw (read-rule_name k labels [] (record new_request { session_id = sid }) name)
          (ground (arith, labels.2))
