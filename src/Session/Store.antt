-- ===== src/Session/Store.antt =====
-- The session cache of src/pcrf_session_cache.cpp. Every operation runs under g_mutexSessionCache,
-- so it is one step on the store; locking is assumed to succeed.
pub mod Insertion
pub mod Lifecycle
pub mod Indexed
pub mod Stale
pub mod Search
use pcrf.Common.{
  ℕ, ◌≡◌, Bool, true, false, ◌&&◌, ◌||◌, not, Option, none, some, List, [], ◌∷◌, ◌++◌,
  if◌then◌else◌, ◌==◌,
}
use pcrf.Common.Text.{Text, text_eq}
use pcrf.Common.Map.{Map, find, assign, insert, erase}
use pcrf.Types.{
  OtlValue, OtlText, to_otl, SessionCache, SessionInfo, RequestInfo, UserEnvironment, UserLocation,
  SubscriptionIdData, new_session_cache, gx_hw_ugw, gx_ericssn, einval, enodata,
}
use pcrf.Session.FramedIp
use pcrf.Session.FramedIp.{FramedIpIndex}
use pcrf.Session.Subscribers
use pcrf.Session.Subscribers.{SubscriberIndex}
use pcrf.Session.Links.{Links, mk_link2parent, remove_link, get_linked_parent_session}

-- g_umapSessionCache and the indexes. The map owns its records, so an entry holds the record.
pub record Store : Type 0 where
  pub sessions : Map SessionCache
  pub framed_ip : FramedIpIndex
  pub links : Links
  pub subscribers : SubscriberIndex

-- `if ( ! src.is_null() ) dst = src`.
unfoldable pub take_new : OtlText → OtlText → OtlText
take_new old fresh = if fresh.is_null then old else fresh

-- `if ( dst.is_null() ) dst = src`.
unfoldable pub take_missing : OtlText → OtlText → OtlText
take_missing old cached = if old.is_null then cached else old

-- The assignments of update_some_values to the record that is found.
unfoldable pub merge_values : SessionCache → SessionCache → SessionCache
unfolding take_new
merge_values c n =
    let located = not n.cgi.is_null || not n.ecgi.is_null || not n.tai.is_null in
    record c {
      subscriber_id = take_new c.subscriber_id n.subscriber_id;
      framed_ip_addr = take_new c.framed_ip_addr n.framed_ip_addr;
      called_station_id = take_new c.called_station_id n.called_station_id;
      ip_can_type = take_new c.ip_can_type n.ip_can_type;
      ip_can_type_code = n.ip_can_type_code;
      sgsn_mccmnc = take_new c.sgsn_mccmnc n.sgsn_mccmnc;
      sgsn_ip_addr = take_new c.sgsn_ip_addr n.sgsn_ip_addr;
      rat_type = take_new c.rat_type n.rat_type;
      rat_type_code = n.rat_type_code;
      cgi = if located then n.cgi else c.cgi;
      ecgi = if located then n.ecgi else c.ecgi;
      tai = if located then n.tai else c.tai;
    }

-- pcrf_session_cache_update_some_values.
unfoldable pub update_some_values : Text → SessionCache → Map SessionCache → Map SessionCache
unfolding merge_values
update_some_values sid n m = elim (find sid m) [
  | some c ↦ assign sid (merge_values c n) m
  | none ↦ m
]

-- The loop of pcrf_session_cache_update_child over the linked sessions.
unfoldable pub update_each : List Text → SessionCache → Map SessionCache → Map SessionCache
unfolding update_some_values
update_each [] n m = m
update_each (sid ∷ sids) n m = update_each sids n (update_some_values sid n m)

-- pcrf_session_cache_update_child.
unfoldable pub update_child : Text → SessionCache → Store → Store
unfolding update_each
update_child sid n s = elim (find sid s.links.parent) [
  | some l ↦ record s { sessions = update_each l n s.sessions }
  | none ↦ s
]

-- `case GX_HW_UGW: case GX_ERICSSN:` before the index by Framed-IP-Address.
unfoldable pub is_core_dialect : ℕ → Bool
is_core_dialect dialect = dialect == gx_hw_ugw || dialect == gx_ericssn

-- The branch of insert_local for a session that is new to the cache.
unfoldable pub index_session : Text → SessionCache → Option Text → ℕ → Store → Store
unfolding is_core_dialect
index_session sid c par dialect s = record s {
  framed_ip =
      if is_core_dialect dialect
      then FramedIp.insert_session c.framed_ip_addr.v sid s.framed_ip
      else s.framed_ip;
  subscribers =
      if not c.subscriber_id.is_null
      then Subscribers.insert_session c.subscriber_id.v sid s.subscribers
      else s.subscribers;
  links = mk_link2parent sid par s.links;
}

-- pcrf_session_cache_insert_local.
unfoldable pub insert_local : Text → SessionCache → Option Text → ℕ → Store → Store
unfolding update_child index_session
insert_local sid c par dialect s = elim (find sid s.sessions) [
  | some _ ↦ update_child sid c (record s { sessions = assign sid c s.sessions })
  | none ↦ index_session sid c par dialect (record s { sessions = insert sid c s.sessions })
]

-- The part of the record that pcrf_session_cache_insert fills from the session.
unfoldable pub cache_of_session : SessionInfo → SessionCache
cache_of_session info = record new_session_cache {
  subscriber_id = to_otl info.subscriber_id;
  framed_ip_addr = info.framed_ip_address;
  called_station_id = info.called_station_id;
  origin_host = info.origin_host;
  origin_realm = info.origin_realm;
  imeisv = info.imei;
  end_user_imsi = info.subscription_data.end_user_imsi;
  end_user_e164 = info.subscription_data.end_user_e164;
}

-- The record that pcrf_session_cache_insert fills; `none` is a null pointer to the request.
unfoldable pub cache_of : SessionInfo → Option RequestInfo → SessionCache
unfolding cache_of_session
cache_of info none = cache_of_session info
cache_of info (some req) = record (cache_of_session info) {
  ip_can_type = req.user_environment.ip_can_type;
  ip_can_type_code = req.user_environment.ip_can_type_code;
  sgsn_mccmnc = req.user_environment.sgsn_mccmnc;
  sgsn_ip_addr = req.user_environment.sgsn_address;
  rat_type = req.user_environment.rat_type;
  rat_type_code = req.user_environment.rat_type_code;
  cgi = req.user_environment.usr_loc.cgi;
  ecgi = req.user_environment.usr_loc.ecgi;
  tai = req.user_environment.usr_loc.tai;
}

-- The assignments of pcrf_session_cache_get to the session.
unfoldable pub fill_session_info : Text → SessionCache → SessionInfo → SessionInfo
unfolding take_missing
fill_session_info sid c info = record info {
  subscriber_id = if not c.subscriber_id.is_null then c.subscriber_id.v else [];
  session_id = elim info.session_id [ [] ↦ sid | _ ∷ _ ↦ info.session_id ];
  framed_ip_address = take_missing info.framed_ip_address c.framed_ip_addr;
  called_station_id = take_missing info.called_station_id c.called_station_id;
  origin_host = take_missing info.origin_host c.origin_host;
  origin_realm = take_missing info.origin_realm c.origin_realm;
  imei = take_missing info.imei c.imeisv;
  subscription_data = record info.subscription_data {
    end_user_imsi = take_missing info.subscription_data.end_user_imsi c.end_user_imsi;
    end_user_e164 = take_missing info.subscription_data.end_user_e164 c.end_user_e164;
  };
}

-- The location, taken from the cache only if the request has none at all.
unfoldable fill_location : SessionCache → UserLocation → UserLocation
fill_location c l =
    if l.cgi.is_null && l.ecgi.is_null && l.tai.is_null
    then record l { cgi = c.cgi; ecgi = c.ecgi; tai = c.tai }
    else l

-- The assignments of pcrf_session_cache_get to the request.
unfoldable pub fill_request_info : SessionCache → RequestInfo → RequestInfo
unfolding take_missing fill_location
fill_request_info c req = record req {
  user_environment = record req.user_environment {
    ip_can_type = take_missing req.user_environment.ip_can_type c.ip_can_type;
    ip_can_type_code = c.ip_can_type_code;
    sgsn_mccmnc = take_missing req.user_environment.sgsn_mccmnc c.sgsn_mccmnc;
    sgsn_address = take_missing req.user_environment.sgsn_address c.sgsn_ip_addr;
    rat_type = take_missing req.user_environment.rat_type c.rat_type;
    rat_type_code = c.rat_type_code;
    usr_loc = fill_location c req.user_environment.usr_loc;
  };
}

-- The result of pcrf_session_cache_get: the code and the out-parameters; `none` is a null pointer.
pub record GetResult : Type 0 where
  pub code : ℕ
  pub info : Option SessionInfo
  pub req : Option RequestInfo
  pub parent_id : Option Text

abbrev pub map_option {ℓ κ} : {A : Type ℓ} {B : Type κ} → (A → B) → Option A → Option B
map_option f none = none
map_option f (some a) = some (f a)

-- pcrf_session_cache_get.
unfoldable pub get :
    Text → Option SessionInfo → Option RequestInfo → Option Text → Store → GetResult
unfolding fill_session_info fill_request_info
get sid info req par s = elim (find sid s.sessions) [
  | some c ↦ record {
    code = 0;
    info = map_option (fill_session_info sid c) info;
    req = map_option (fill_request_info c) req;
    parent_id = map_option (λ out. (get_linked_parent_session sid out s.links).1) par;
  }
  | none ↦ record { code = einval; info = info; req = req; parent_id = par }
]

-- What remove_local does to the indexes for the record it finds.
unfoldable pub unindex_session : Text → SessionCache → Store → Store
unindex_session sid c s = record s {
  subscribers =
      if not c.subscriber_id.is_null
      then Subscribers.rm_subscriber_session_id c.subscriber_id.v sid s.subscribers
      else s.subscribers;
  framed_ip = FramedIp.remove_session c.framed_ip_addr.v sid s.framed_ip;
}

-- pcrf_session_cache_remove_local: the code and the store.
unfoldable pub remove_local : Text → Store → ℕ × Store
unfolding unindex_session
remove_local sid s =
    let s1 = record s { links = remove_link sid s.links } in
    elim (find sid s.sessions) [
      | some c ↦
          let s2 = unindex_session sid c s1 in (0, record s2 { sessions = erase sid s2.sessions })
      | none ↦ (enodata, s1)
    ]
