-- ===== src/Messages/Features.antt =====
-- Supported-Features of src/pcrf_server.cpp: pcrf_make_SF and pcrf_extract_SF.
use pcrf.Common.{ℕ, ◌≡◌, refl, List, [], ◌∷◌, ◌++◌, ◌==◌, if◌then◌else◌}
use pcrf.Messages.{Header, Value, number, group, avp, Avps, nil, cons, ◌then_add◌, one, number_of}
use pcrf.Messages.Dictionary.{
  Headers, avp_supported_features, avp_vendor_id, avp_feature_list_id, avp_feature_list, standard,
}

-- SSF.
pub record SupportedFeature : Type 0 where
  pub vendor_id : ℕ
  pub feature_list_id : ℕ
  pub feature_list : ℕ

abbrev new_feature : SupportedFeature
new_feature = record { vendor_id = 0; feature_list_id = 0; feature_list = 0 }

-- The AVPs of one group.
unfoldable pub make_feature : Headers → SupportedFeature → Avps
unfolding ◌then_add◌ one
make_feature new f =
    one (new avp_vendor_id) (number f.vendor_id)
    then_add one (new avp_feature_list_id) (number f.feature_list_id)
    then_add one (new avp_feature_list) (number f.feature_list)

-- pcrf_make_SF, with the AVPs that it adds to the answer.
unfoldable pub make_supported_features : Headers → List SupportedFeature → Avps
unfolding make_feature
make_supported_features new [] = nil
make_supported_features new (f ∷ fs) =
    cons (avp (new avp_supported_features) (group (make_feature new f)))
      (make_supported_features new fs)

-- One round of pcrf_extract_SF, and its loop over the group.
unfoldable extract_feature_avp : Header → Value → SupportedFeature → SupportedFeature
unfolding number_of
extract_feature_avp h x f =
    if h.vendor == 0
    then (if h.code == 266 then record f { vendor_id = number_of x } else f)
    else if h.vendor == 10415
    then (if h.code == 629
        then record f { feature_list_id = number_of x }
        else if h.code == 630
        then record f { feature_list = number_of x }
        else f)
    else f

unfoldable pub extract_feature : Avps → SupportedFeature → SupportedFeature
unfolding extract_feature_avp
extract_feature nil f = f
extract_feature (cons (avp h x) l) f = extract_feature l (extract_feature_avp h x f)

-- pcrf_extract_SF: the list.
unfoldable pub extract_supported_feature : Avps → List SupportedFeature → List SupportedFeature
unfolding extract_feature
extract_supported_feature l fs = fs ++ extract_feature l new_feature ∷ []

extract_feature-make_feature :
    (junk f : SupportedFeature) → extract_feature (make_feature standard f) junk ≡ f
unfolding extract_feature make_feature standard
extract_feature-make_feature junk f = refl
