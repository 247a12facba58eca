-- ===== src/Messages/Extraction/RoundTrip.antt =====
-- What pcrf_extract_req_data of src/pcrf_server.cpp reads from the AVPs that the program makes of the
-- features, of the subscriber and of the quality of service.
use pcrf.Common.{
  ℕ, ◌≡◌, refl, sym, ap, ◌∙◌, Bool, true, false, Option, none, some, List, [], ◌∷◌, ◌++◌,
  if◌then◌else◌,
}
use mathlib.Core.List.{append_assoc, append-nil}
use pcrf.Common.Text.{Text}
use pcrf.Types.{to_otl}
use pcrf.Messages.{avp, Avps, nil, cons, ◌then_add◌, one, number_of, octets_of, children_of}
use pcrf.Messages.Dictionary.{standard}
use pcrf.Messages.Qos.{
  DefaultBearer, QosInformation, new_bearer, new_qos_information, make_bearer, make_bitrates,
  make_default_eps_bearer_qos, make_qos_information, extract_bearer, extract_bitrates,
  extract_qos_information,
}
use pcrf.Messages.Qos.RoundTrip.{
  read_bearer, read_bitrates, extract_bearer-make_bearer, extract_bitrates-make_bitrates,
}
use pcrf.Messages.Features.{
  SupportedFeature, make_feature, make_supported_features, extract_supported_feature,
  extract_feature,
}
use pcrf.Messages.Identity.{
  make_subscription_id, extract_subscription_id, extract_typed, store_subscription_id,
}
use pcrf.Messages.Request.{MessageData, Library, set_info}
use pcrf.Messages.Extraction.{
  extract_base, extract_3gpp, extract_environment, extract_one, extract_req_data,
}

-- One message after another.
abbrev pub and_then : Library → Avps → Option MessageData → Option MessageData
and_then lib m none = none
and_then lib m (some d) = extract_req_data lib m d

pub extract-then_add :
    (lib : Library) (l m : Avps) (d : MessageData)
    → extract_req_data lib (l then_add m) d ≡ and_then lib m (extract_req_data lib l d)
unfolding extract_req_data ◌then_add◌
extract-then_add lib nil m d = refl
extract-then_add lib (cons (avp h x) l) m d =
    step (extract_one lib h x d) (λ d'. extract-then_add lib l m d')
  where
    step :
        (r : Option MessageData)
        → ((d' : MessageData)
            → extract_req_data lib (l then_add m) d' ≡ and_then lib m (extract_req_data lib l d'))
        → (elim r [ none ↦ none | some d' ↦ extract_req_data lib (l then_add m) d' ])
          ≡ and_then lib m (elim r [ none ↦ none | some d' ↦ extract_req_data lib l d' ])
    step none ih = refl
    step (some d') ih = ih d'

pub extract_req_data-nil : (lib : Library) (d : MessageData) → extract_req_data lib nil d ≡ some d
unfolding extract_req_data
extract_req_data-nil lib d = refl

-- Supported-Features.
pub extract-make_supported_features :
    (lib : Library) (fs : List SupportedFeature) (d : MessageData)
    → extract_req_data lib (make_supported_features standard fs) d
      ≡ some (record d { supported_features = d.supported_features ++ fs })
unfolding extract_req_data extract_one extract_3gpp make_supported_features standard
    extract_environment extract_supported_feature children_of make_feature extract_feature
extract-make_supported_features lib [] d =
    ap (λ l. some (record d { supported_features = l })) (sym (append-nil d.supported_features))
extract-make_supported_features lib (f ∷ fs) d =
    extract-make_supported_features lib fs
      (record d { supported_features = d.supported_features ++ f ∷ [] })
    ∙ ap (λ l. some (record d { supported_features = l }))
        (append_assoc d.supported_features (f ∷ []) fs)

-- The bearer and the bit rates.
pub extract-make_default_eps_bearer_qos :
    (lib : Library) (is_null : Bool) (q : DefaultBearer) (d : MessageData)
    → d.default_bearer.v ≡ new_bearer
    → extract_req_data lib
        (make_default_eps_bearer_qos standard (record { v = q; is_null = is_null }))
        d
      ≡ some (if is_null then d else record d { default_bearer = to_otl (read_bearer q) })
unfolding extract_req_data extract_one make_default_eps_bearer_qos standard one extract_3gpp
    children_of extract_environment
extract-make_default_eps_bearer_qos lib true q d fresh = refl
extract-make_default_eps_bearer_qos lib false q d fresh =
    ap (λ b. some (record d { default_bearer = to_otl b }))
      (ap (extract_bearer (make_bearer standard q)) fresh
        ∙ extract_bearer-make_bearer standard q (λ c. refl))

pub extract-make_qos_information :
    (lib : Library) (is_null : Bool) (q : QosInformation) (d : MessageData)
    → d.qos_information.v ≡ new_qos_information
    → extract_req_data lib (make_qos_information standard (record { v = q; is_null = is_null })) d
      ≡ some (if is_null then d else record d { qos_information = to_otl (read_bitrates q) })
unfolding extract_req_data extract_one make_qos_information standard one extract_3gpp children_of
    extract_environment extract_qos_information
extract-make_qos_information lib true q d fresh = refl
extract-make_qos_information lib false q d fresh =
    ap (λ b. some (record d { qos_information = to_otl b }))
      (ap (extract_bitrates (make_bitrates standard q)) fresh
        ∙ extract_bitrates-make_bitrates standard q (λ c. refl))

-- The subscriber.
pub extract-make_subscription_id :
    (lib : Library) (type : ℕ) (is_null : Bool) (t : Text) (d : MessageData)
    → extract_req_data lib
        (make_subscription_id standard type (record { v = t; is_null = is_null }))
        d
      ≡ some (
          if is_null
          then d
          else set_info
              (λ i. record i {
                subscription_data =
                    store_subscription_id
                      (record { type = some type; value = t })
                      i.subscription_data;
              })
              d)
unfolding extract_req_data extract_one make_subscription_id standard one extract_base children_of
    extract_subscription_id extract_typed octets_of number_of
extract-make_subscription_id lib type true t d = refl
extract-make_subscription_id lib type false t d =
    ap
      (λ v. some (
        set_info
          (λ i. record i {
            subscription_data =
                store_subscription_id (record { type = some type; value = v }) i.subscription_data;
          })
          d))
      (append-nil t)
