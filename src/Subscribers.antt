-- ===== src/Subscribers.antt =====
-- The cache of subscription data: src/cache/pcrf_subscriber_cache.cpp. Its lock is assumed to be
-- taken and released.
pub mod Lookup
use pcrf.Common.{ℕ, Bool, true, false, ◌||◌, Option, none, some, List, [], ◌∷◌, if◌then◌else◌}
use pcrf.Common.Text.{Text, text_eq}
use pcrf.Common.Map.{Map, find, insert}
use pcrf.Types.{OtlText, SubscriptionIdData, to_otl, einval}

-- g_pmmapSubscriptionData, one map for each DIAM_END_USER_ type.
pub record SubscriptionMaps : Type 0 where
  pub e164 : Map Text
  pub imsi : Map Text
  pub sip_uri : Map Text
  pub nai : Map Text
  pub user_private : Map Text

-- A row of ps.subscription_data.
pub record SubscriptionRow : Type 0 where
  pub subscriber_id : Text
  pub end_user_e164 : OtlText
  pub end_user_imsi : OtlText
  pub end_user_sip_uri : OtlText
  pub end_user_nai : OtlText
  pub end_user_private : OtlText

unfoldable pub is_empty : Text → Bool
is_empty [] = true
is_empty (_ ∷ _) = false

-- pcrf_subscriber_cache_insert, into the map of the type.
unfoldable pub subscriber_cache_insert : OtlText → Text → Map Text → Map Text
unfolding is_empty
subscriber_cache_insert f sub m = if f.is_null || is_empty sub then m else insert f.v sub m

-- One round of the fetch loop of pcrf_subscriber_cache_load_list, and the loop.
unfoldable pub insert_row : SubscriptionRow → SubscriptionMaps → SubscriptionMaps
unfolding subscriber_cache_insert
insert_row r m = record {
  e164 = subscriber_cache_insert r.end_user_e164 r.subscriber_id m.e164;
  imsi = subscriber_cache_insert r.end_user_imsi r.subscriber_id m.imsi;
  sip_uri = subscriber_cache_insert r.end_user_sip_uri r.subscriber_id m.sip_uri;
  nai = subscriber_cache_insert r.end_user_nai r.subscriber_id m.nai;
  user_private = subscriber_cache_insert r.end_user_private r.subscriber_id m.user_private;
}

unfoldable pub load_list : List SubscriptionRow → SubscriptionMaps → SubscriptionMaps
unfolding insert_row
load_list [] m = m
load_list (r ∷ rs) m = load_list rs (insert_row r m)

-- pcrf_subscriber_cache_check_data: the result and the identifier.
unfoldable pub check_data : Map Text → OtlText → Text → Bool × Text
unfolding is_empty
check_data m f sub = if f.is_null then (true, sub) else elim (find f.v m) [
  | none ↦ (true, sub)
  | some id ↦ if is_empty sub then (true, id) else (text_eq sub id, sub)
]

-- One check of pcrf_subscriber_cache_get_subscriber_id, where none has failed before. The value
-- is passed without its null indicator, so a null value is looked up as the text it holds.
unfoldable pub then_check : Map Text → OtlText → Bool × Text → Bool × Text
unfolding check_data
then_check m f (false, sub) = (false, sub)
then_check m f (true, sub) = check_data m (to_otl f.v) sub

unfoldable pub result_of : Bool × Text → ℕ × Text
result_of (true, sub) = (0, sub)
result_of (false, sub) = (einval, [])

-- pcrf_subscriber_cache_get_subscriber_id: the code and the identifier.
unfoldable pub get_subscriber_id : SubscriptionIdData → SubscriptionMaps → ℕ × Text
unfolding then_check result_of
get_subscriber_id d m = result_of (
    then_check m.user_private d.end_user_private (
      then_check m.nai d.end_user_nai (
        then_check m.sip_uri d.end_user_sipuri
          (then_check m.e164 d.end_user_e164 (then_check m.imsi d.end_user_imsi (true, []))))))
