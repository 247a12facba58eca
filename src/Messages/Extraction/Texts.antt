-- ===== src/Messages/Extraction/Texts.antt =====
-- The Session-Id that pcrf_extract_req_data of src/pcrf_server.cpp leaves.
use pcrf.Common.{
  ℕ, ◌≡◌, refl, sym, ap, ◌∙◌, Bool, true, false, not, ◌&&◌, ◌||◌, Option, none, some, ◌++◌, ◌==◌,
  ltb, arith, if◌then◌else◌, Bool-cases, inl, inr,
}
use pcrf.Common.Text.{Text}
use pcrf.Messages.{Header, Value, Avps, nil, cons, avp, octets_of}
use pcrf.Common.Lists.{length, length-append}
use pcrf.Types.{UserEnvironment, SessionInfo}
use pcrf.Messages.Request.{MessageData, Library}
use pcrf.Messages.Extraction.{
  extract_base, extract_3gpp, extract_environment, extract_one, extract_req_data, with_environment,
  set_tethering, store_mcc_mnc,
}

extract_3gpp-session_id :
    (lib : Library) (h : Header) (x : Value) (d : MessageData)
    → (extract_3gpp lib h x d).info ≡ d.info
unfolding extract_3gpp
extract_3gpp-session_id lib h x d = ground arith

extract_base-session_id :
    (lib : Library) (h : Header) (x : Value) (d : MessageData)
    → (extract_base lib h x d).info.session_id
      ≡ (if h.code == 263 then octets_of x ++ d.info.session_id else d.info.session_id)
unfolding extract_base
extract_base-session_id lib h x d = ground arith

-- Whether an AVP is Session-Id: the vendor counts where it is flagged.
unfoldable pub is_session_id : Header → Bool
is_session_id h = h.code == 263 && (if h.flag_vendor then h.vendor else 0) == 0

-- The contents of the Session-Id AVPs, the last one first, before a text.
unfoldable pub session_ids : Avps → Text → Text
unfolding is_session_id octets_of
session_ids nil s = s
session_ids (cons (avp h x) l) s = session_ids l (if is_session_id h then octets_of x ++ s else s)

abbrev info_in : MessageData → Option MessageData → SessionInfo
info_in d none = d.info
info_in d (some d') = d'.info

some-info : (d d' : MessageData) → some d ≡ some d' → d'.info ≡ d.info
some-info d d' p = sym (ap (info_in d) p)

with_environment-info :
    (d d' : MessageData) (e : Option UserEnvironment)
    → with_environment d e ≡ some d'
    → d'.info ≡ d.info
with_environment-info d d' none p = ground arith
with_environment-info d d' (some e) p = some-info _ d' p

set_tethering-info :
    (code : ℕ) (h : Header) (x : Value) (d : MessageData) → (set_tethering code h x d).info ≡ d.info
set_tethering-info code h x d = elim (Bool-cases (h.code == code)) [
  | inl e ↦ rw (e) refl
  | inr e ↦ rw (e) refl
]

one_of :
    (no_vendor core_vendor huawei_vendor procera_vendor : Bool)
    (base core huawei procera d d' : MessageData) (e : Option UserEnvironment)
    → core.info ≡ d.info
    → huawei.info ≡ d.info
    → procera.info ≡ d.info
    → (if no_vendor
        then some base
        else if core_vendor
        then with_environment core e
        else if huawei_vendor
        then some huawei
        else if procera_vendor
        then some procera
        else some d)
      ≡ some d'
    → d'.info.session_id ≡ (if no_vendor then base.info.session_id else d.info.session_id)
one_of true _ _ _ base core huawei procera d d' e same same' same'' p =
    ap (λ i. i.session_id) (some-info _ d' p)
one_of false true _ _ base core huawei procera d d' e same same' same'' p =
    ap (λ i. i.session_id) (with_environment-info core d' e p ∙ same)
one_of false false true _ base core huawei procera d d' e same same' same'' p =
    ap (λ i. i.session_id) (some-info _ d' p) ∙ ap (λ i. i.session_id) same'
one_of false false false true base core huawei procera d d' e same same' same'' p =
    ap (λ i. i.session_id) (some-info _ d' p) ∙ ap (λ i. i.session_id) same''
one_of false false false false base core huawei procera d d' e same same' same'' p =
    ap (λ i. i.session_id) (some-info _ d' p)

abbrev vendor_of : Header → ℕ
vendor_of h = if h.flag_vendor then h.vendor else 0

base_or_kept :
    (is_code no_vendor : Bool) (longer kept base : Text)
    → base ≡ (if is_code then longer else kept)
    → (if no_vendor then base else kept) ≡ (if is_code && no_vendor then longer else kept)
base_or_kept true true longer kept base e = e
base_or_kept false true longer kept base e = e
base_or_kept true false longer kept base e = refl
base_or_kept false false longer kept base e = refl

extract_one-session_id :
    (lib : Library) (h : Header) (x : Value) (d d' : MessageData)
    → extract_one lib h x d ≡ some d'
    → d'.info.session_id
      ≡ (if is_session_id h then octets_of x ++ d.info.session_id else d.info.session_id)
unfolding extract_one is_session_id
extract_one-session_id lib h x d d' e =
    one_of (vendor_of h == 0) (vendor_of h == 10415) (vendor_of h == 2011) (vendor_of h == 15397)
      (extract_base lib h x d) (extract_3gpp lib h x d) (set_tethering 2029 h x d)
      (set_tethering 777 h x d) d d' (extract_environment lib h x d.req.user_environment)
      (extract_3gpp-session_id lib h x d) (set_tethering-info 2029 h x d)
      (set_tethering-info 777 h x d) e
    ∙ base_or_kept (h.code == 263) (vendor_of h == 0) (octets_of x ++ d.info.session_id)
        d.info.session_id (extract_base lib h x d).info.session_id
        (extract_base-session_id lib h x d)

-- Whether reading an AVP goes neither past a text nor past a location: it is not
-- 3GPP-User-Location-Info, and as 3GPP-SGSN-MCC-MNC it has three bytes.
unfoldable pub is_readable : Header → Value → Bool
unfolding octets_of
is_readable h x =
    not (vendor_of h == 10415)
    || not (h.code == 22) && (not (h.code == 18) || not (ltb (length (octets_of x)) 3))

unfoldable pub are_readable : Avps → Bool
unfolding is_readable
are_readable nil = true
are_readable (cons (avp h x) l) = is_readable h x && are_readable l

unfoldable returns {ℓ} : {A : Type ℓ} → Option A → Bool
returns none = false
returns (some _) = true

store_mcc_mnc-returns :
    (t : Text) (e : UserEnvironment) → ltb (length t) 3 ≡ false → returns (store_mcc_mnc t e) ≡ true
unfolding store_mcc_mnc returns
store_mcc_mnc-returns t e enough = ground (arith, length-append t e.sgsn_mccmnc.v)

extract_environment-returns :
    (lib : Library) (h : Header) (x : Value) (e : UserEnvironment)
    → (h.code == 22) ≡ false
    → (not (h.code == 18) || not (ltb (length (octets_of x)) 3)) ≡ true
    → returns (extract_environment lib h x e) ≡ true
unfolding extract_environment returns
extract_environment-returns lib h x e no_location enough =
    ground (arith, store_mcc_mnc-returns (octets_of x) e)

with_environment-returns :
    (d : MessageData) (e : Option UserEnvironment)
    → returns e ≡ true
    → returns (with_environment d e) ≡ true
unfolding returns
with_environment-returns d none p = p
with_environment-returns d (some e) p = refl

one_of-returns :
    (no_vendor core_vendor huawei_vendor procera_vendor : Bool)
    (base core huawei procera d : MessageData) (e : Option UserEnvironment)
    → (not core_vendor || returns e) ≡ true
    → returns (
        if no_vendor
        then some base
        else if core_vendor
        then with_environment core e
        else if huawei_vendor
        then some huawei
        else if procera_vendor
        then some procera
        else some d)
      ≡ true
unfolding returns
one_of-returns true _ _ _ base core huawei procera d e p = refl
one_of-returns false true _ _ base core huawei procera d e p = with_environment-returns core e p
one_of-returns false false true _ base core huawei procera d e p = refl
one_of-returns false false false true base core huawei procera d e p = refl
one_of-returns false false false false base core huawei procera d e p = refl

within :
    (core bad enough : Bool) (e : Option UserEnvironment)
    → (bad ≡ false → enough ≡ true → returns e ≡ true)
    → (not core || not bad && enough) ≡ true
    → (not core || returns e) ≡ true
within false bad enough e h p = refl
within true false enough e h p = h refl p
within true true enough e h p = ground arith

both : (a b : Bool) → (a && b) ≡ true → (a ≡ true) × (b ≡ true)
both a b p = ground arith

extract_one-returns :
    (lib : Library) (h : Header) (x : Value) (d : MessageData)
    → is_readable h x ≡ true
    → returns (extract_one lib h x d) ≡ true
unfolding extract_one is_readable
extract_one-returns lib h x d readable =
    let e = extract_environment lib h x d.req.user_environment in
    one_of-returns (vendor_of h == 0) (vendor_of h == 10415) (vendor_of h == 2011)
      (vendor_of h == 15397) (extract_base lib h x d) (extract_3gpp lib h x d)
      (set_tethering 2029 h x d) (set_tethering 777 h x d) d e
      (within (vendor_of h == 10415) (h.code == 22)
        (not (h.code == 18) || not (ltb (length (octets_of x)) 3)) e
        (extract_environment-returns lib h x d.req.user_environment) readable)

-- A message without 3GPP-User-Location-Info, in which each 3GPP-SGSN-MCC-MNC has three bytes or
-- more, is read to its end. The Session-Id of the session is then made of the contents of the
-- Session-Id AVPs without a vendor, the last one in front, before what was there; no other AVP
-- changes it.
pub extract_req_data-session_id :
    (lib : Library) (l : Avps) (d : MessageData)
    → are_readable l ≡ true
    → (d' : MessageData) × (extract_req_data lib l d ≡ some d')
      × (d'.info.session_id ≡ session_ids l d.info.session_id)
unfolding are_readable extract_req_data session_ids returns
extract_req_data-session_id lib nil d p = (d, refl, refl)
extract_req_data-session_id lib (cons (avp h x) l) d p =
    step (extract_one lib h x d) refl
      (λ m. extract_req_data-session_id lib l m (both (is_readable h x) (are_readable l) p).1)
      (extract_one-returns lib h x d (both (is_readable h x) (are_readable l) p).0)
  where
    step :
        (o : Option MessageData)
        → extract_one lib h x d ≡ o
        → ((m : MessageData)
            → (d' : MessageData) × (extract_req_data lib l m ≡ some d')
              × (d'.info.session_id ≡ session_ids l m.info.session_id))
        → returns o ≡ true
        → (d' : MessageData) × ((elim o [ none ↦ none | some m ↦ extract_req_data lib l m ])
            ≡ some d')
          × (d'.info.session_id ≡ session_ids (cons (avp h x) l) d.info.session_id)
    step none f rest p = ground arith
    step (some m) f rest p =
        let (d', reads, same) = rest m in
        (d', reads, same ∙ ap (session_ids l) (extract_one-session_id lib h x d m f))
