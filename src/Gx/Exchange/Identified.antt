-- ===== src/Gx/Exchange/Identified.antt =====
-- The session that a credit control request of src/pcrf_server.cpp is about, from its AVPs to the
-- record of it on the node.
use pcrf.Common.{
  ℕ, ◌≡◌, subst, ap, ◌∙◌, Bool, true, false, Option, none, some, List, [], ◌==◌, ◌&&◌,
  if◌then◌else◌,
}
use pcrf.Common.Text.{Text}
use pcrf.Common.Map.{find}
use pcrf.Types.{initial_request, termination_request, update_request}
use pcrf.Subscribers.{SubscriptionMaps}
use pcrf.Session.Store.{cache_of}
use pcrf.Refresh.{LocalQueue}
use pcrf.Ipc.Codes.{Codes, PsPacket}
use pcrf.Ipc.Process.{Node, is_nil}
use pcrf.Gx.{Ccr, ccr_cb}
use pcrf.Gx.Lifetime.{find-ccr_cb}
use pcrf.Messages.{Avps}
use pcrf.Messages.Request.{MessageData, Library, new_message_data}
use pcrf.Messages.Extraction.Texts.{are_readable, session_ids, extract_req_data-session_id}
use pcrf.Gx.Exchange.{ccr_message}

-- A request without 3GPP-User-Location-Info, in which each 3GPP-SGSN-MCC-MNC has three bytes or
-- more, with contents in its Session-Id AVPs, is handled. These contents, the last one first, are
-- the session: afterwards the node holds for it the record of what the locals then are if the
-- request that was read is an initial one or an update whose actions include the update of the
-- session cache, none if it is a termination, and otherwise the record that the node held.
pub find-ccr_message :
    (p : PsPacket) (k : Codes) (nodes : List (Option ℕ)) (m : SubscriptionMaps)
    (generate_cdr look given : Bool) (lib : Library) (l : Avps) (queue : LocalQueue) (n : Node)
    → are_readable l ≡ true
    → is_nil (session_ids l []) ≡ false
    → (d : MessageData) × (r : Ccr × (Node × List (ℕ × Text))) × (ccr_message p k nodes m
          generate_cdr look given lib l queue n
        ≡ some (d, r))
      × (find (session_ids l []) r.1.0.store.sessions ≡ (
          if d.req.cc_request_type == initial_request
          then some (cache_of r.0.info (some r.0.req))
          else if d.req.cc_request_type == termination_request
          then none
          else if d.req.cc_request_type == update_request && r.0.action_set.update_sessioncache
          then some (cache_of r.0.info (some r.0.req))
          else find (session_ids l []) n.store.sessions))
unfolding ccr_message
find-ccr_message p k nodes m generate_cdr look given lib l queue n readable named =
    let (d, reads, same) = extract_req_data-session_id lib l new_message_data readable in
    let r = ccr_cb p k nodes m generate_cdr look given d.info d.req queue n in
    (
      d,
      r,
      ap
          (λ o. elim o [
            | none ↦ none
            | some e ↦ some (e, ccr_cb p k nodes m generate_cdr look given e.info e.req queue n)
          ])
          reads,
      subst
          (λ x. find x r.1.0.store.sessions ≡ (
            if d.req.cc_request_type == initial_request
            then some (cache_of r.0.info (some r.0.req))
            else if d.req.cc_request_type == termination_request
            then none
            else if d.req.cc_request_type == update_request && r.0.action_set.update_sessioncache
            then some (cache_of r.0.info (some r.0.req))
            else find x n.store.sessions))
          same
          (find-ccr_cb p k nodes m generate_cdr look given d.info d.req queue n
            (ap is_nil same ∙ named)),
    )
