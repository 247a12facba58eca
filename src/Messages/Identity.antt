-- ===== src/Messages/Identity.antt =====
-- The identity of the subscriber in src/pcrf_server.cpp: pcrf_make_SI, pcrf_extract_SubscriptionId
-- and pcrf_extract_UEI; and pcrf_procera_make_subscription_id of src/procera/pcrf_procera.cpp.
use pcrf.Common.{ℕ, Bool, true, false, Option, none, some, [], ◌∷◌, ◌++◌, ◌==◌, if◌then◌else◌}
use pcrf.Common.Text.{Text}
use pcrf.Types.{OtlText, SubscriptionIdData, to_otl}
use pcrf.Messages.{
  number, octets, group, avp, Avps, nil, cons, ◌then_add◌, one, number_of, octets_of,
}
use pcrf.Messages.Dictionary.{
  Headers, avp_subscription_id, avp_subscription_id_type, avp_subscription_id_data,
}

-- DIAM_END_USER_E164 and DIAM_END_USER_IMSI.
abbrev end_user_e164_type : ℕ
end_user_e164_type = 0

abbrev end_user_imsi_type : ℕ
end_user_imsi_type = 1

-- One Subscription-Id, where the value is not null.
unfoldable pub make_subscription_id : Headers → ℕ → OtlText → Avps
unfolding ◌then_add◌ one
make_subscription_id new type value =
    if value.is_null
    then nil
    else one (new avp_subscription_id) (
        group (
          one (new avp_subscription_id_type) (number type)
          then_add one (new avp_subscription_id_data) (octets value.v)))

-- pcrf_make_SI.
unfoldable make_si : Headers → SubscriptionIdData → Avps
unfolding make_subscription_id
make_si new d =
    make_subscription_id new end_user_e164_type d.end_user_e164
    then_add make_subscription_id new end_user_imsi_type d.end_user_imsi

-- pcrf_procera_make_subscription_id.
unfoldable pub procera_make_subscription_id : Headers → OtlText → OtlText → Avps
unfolding make_subscription_id
procera_make_subscription_id new imsi e164 =
    make_subscription_id new end_user_imsi_type imsi
    then_add make_subscription_id new end_user_e164_type e164

-- The locals of pcrf_extract_SubscriptionId and of pcrf_extract_UEI: the type, `none` for the -1 of
-- the beginning, and the value.
pub record Typed : Type 0 where
  pub type : Option ℕ
  pub value : Text

abbrev new_typed : Typed
new_typed = record { type = none; value = [] }

-- The loop of both functions, with the codes of the two AVPs; `insert( 0, ... )` puts a value before
-- the one that is there.
unfoldable pub extract_typed : ℕ → ℕ → Avps → Typed → Typed
unfolding number_of octets_of
extract_typed type_code value_code nil t = t
extract_typed type_code value_code (cons (avp h x) l) t = extract_typed type_code value_code l (
    if h.vendor == 0
    then (if h.code == type_code
        then record t { type = some (number_of x) }
        else if h.code == value_code
        then record t { value = octets_of x ++ t.value }
        else t)
    else t)

unfoldable pub is_empty_value : Text → Bool
is_empty_value [] = true
is_empty_value (_ ∷ _) = false

unfoldable pub store_subscription_id : Typed → SubscriptionIdData → SubscriptionIdData
unfolding is_empty_value
store_subscription_id t d = elim t.type [
  | none ↦ d
  | some type ↦
      if is_empty_value t.value
      then d
      else if type == 0
      then record d { end_user_e164 = to_otl t.value }
      else if type == 1
      then record d { end_user_imsi = to_otl t.value }
      else if type == 2
      then record d { end_user_sipuri = to_otl t.value }
      else if type == 3
      then record d { end_user_nai = to_otl t.value }
      else if type == 4
      then record d { end_user_private = to_otl t.value }
      else d
]

-- pcrf_extract_SubscriptionId.
unfoldable pub extract_subscription_id : Avps → SubscriptionIdData → SubscriptionIdData
unfolding extract_typed store_subscription_id
extract_subscription_id l d = store_subscription_id (extract_typed 450 444 l new_typed) d

-- pcrf_extract_UEI: the IMEI.
unfoldable store_uei : Typed → OtlText → OtlText
store_uei t imei = elim t.type [
  | none ↦ imei
  | some type ↦ if type == 0 then to_otl t.value else imei
]

unfoldable pub extract_uei : Avps → OtlText → OtlText
unfolding extract_typed store_uei
extract_uei l imei = store_uei (extract_typed 459 460 l new_typed) imei
