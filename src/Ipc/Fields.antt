-- ===== src/Ipc/Fields.antt =====
-- What each item of a session packet of src/pcrf_ipc.cpp does to the request that is read.
use pcrf.Common.{ℕ, ◌<◌, ◌≡◌, refl, Option, none, some, List, ◌++◌, arith, if◌then◌else◌}
use pcrf.Common.Text.{Text}
use pcrf.Types.{OtlText}
use pcrf.Ipc.Payload.{Item, u32, read_u32-u32}
use pcrf.Ipc.Codes.{Codes, SwitchLabels}
use pcrf.Ipc.Pack.{field_item, code_item, option_item}
use pcrf.Ipc.Process.{Request, put_front, read_item}
use pcrf.Ipc.Delivery.{read_items}

-- A field after the item of `f` was read, if there is one.
abbrev pub received : OtlText → OtlText → OtlText
received f old = if f.is_null then old else put_front f.v old

-- The parent after its item was read, if there is one.
abbrev pub or_parent : Option Text → Option Text → Option Text
or_parent none old = old
or_parent (some x) old = some x

module _ (k : Codes) (labels : SwitchLabels k) (rest : List Item) (r : Request) where
  pub read-subscriber_id :
      (f : OtlText)
      → read_items k (field_item 65535 k.ps_subscr f ++ rest) r
        ≡ read_items k rest (record r {
          cache = record r.cache { subscriber_id = received f r.cache.subscriber_id };
        })
  unfolding read_items field_item read_item
  read-subscriber_id f = ground (arith, labels.1)

  pub read-cgi :
      (f : OtlText)
      → read_items k (field_item 65535 k.attr_cgi f ++ rest) r
        ≡ read_items k rest (record r { cache = record r.cache { cgi = received f r.cache.cgi } })
  unfolding read_items field_item read_item
  read-cgi f = ground (arith, labels.1)

  pub read-ecgi :
      (f : OtlText)
      → read_items k (field_item 65535 k.attr_ecgi f ++ rest) r
        ≡ read_items k rest (record r { cache = record r.cache { ecgi = received f r.cache.ecgi } })
  unfolding read_items field_item read_item
  read-ecgi f = ground (arith, labels.1)

  pub read-tai :
      (f : OtlText)
      → read_items k (field_item 65535 k.attr_tai f ++ rest) r
        ≡ read_items k rest (record r { cache = record r.cache { tai = received f r.cache.tai } })
  unfolding read_items field_item read_item
  read-tai f = ground (arith, labels.1)

  pub read-imeisv :
      (f : OtlText)
      → read_items k (field_item 65535 k.attr_imei f ++ rest) r
        ≡ read_items k rest
            (record r { cache = record r.cache { imeisv = received f r.cache.imeisv } })
  unfolding read_items field_item read_item
  read-imeisv f = ground (arith, labels.1)

  pub read-end_user_imsi :
      (f : OtlText)
      → read_items k (field_item 65535 k.attr_imsi f ++ rest) r
        ≡ read_items k rest (record r {
          cache = record r.cache { end_user_imsi = received f r.cache.end_user_imsi };
        })
  unfolding read_items field_item read_item
  read-end_user_imsi f = ground (arith, labels.1)

  pub read-end_user_e164 :
      (f : OtlText)
      → read_items k (field_item 65535 k.attr_e164 f ++ rest) r
        ≡ read_items k rest (record r {
          cache = record r.cache { end_user_e164 = received f r.cache.end_user_e164 };
        })
  unfolding read_items field_item read_item
  read-end_user_e164 f = ground (arith, labels.1)

  pub read-ip_can_type :
      (f : OtlText)
      → read_items k (field_item 65535 k.attr_ipcantype f ++ rest) r
        ≡ read_items k rest
            (record r { cache = record r.cache { ip_can_type = received f r.cache.ip_can_type } })
  unfolding read_items field_item read_item
  read-ip_can_type f = ground (arith, labels.1)

  pub read-rat_type :
      (f : OtlText)
      → read_items k (field_item 65535 k.attr_rattype f ++ rest) r
        ≡ read_items k rest
            (record r { cache = record r.cache { rat_type = received f r.cache.rat_type } })
  unfolding read_items field_item read_item
  read-rat_type f = ground (arith, labels.1)

  pub read-framed_ip_addr :
      (f : OtlText)
      → read_items k (field_item 0 8 f ++ rest) r
        ≡ read_items k rest (record r {
          cache = record r.cache { framed_ip_addr = received f r.cache.framed_ip_addr };
        })
  unfolding read_items field_item read_item
  read-framed_ip_addr f = ground (arith)

  pub read-called_station_id :
      (f : OtlText)
      → read_items k (field_item 0 30 f ++ rest) r
        ≡ read_items k rest (record r {
          cache = record r.cache { called_station_id = received f r.cache.called_station_id };
        })
  unfolding read_items field_item read_item
  read-called_station_id f = ground (arith)

  pub read-origin_host :
      (f : OtlText)
      → read_items k (field_item 0 264 f ++ rest) r
        ≡ read_items k rest
            (record r { cache = record r.cache { origin_host = received f r.cache.origin_host } })
  unfolding read_items field_item read_item
  read-origin_host f = ground (arith)

  pub read-origin_realm :
      (f : OtlText)
      → read_items k (field_item 0 296 f ++ rest) r
        ≡ read_items k rest
            (record r { cache = record r.cache { origin_realm = received f r.cache.origin_realm } })
  unfolding read_items field_item read_item
  read-origin_realm f = ground (arith)

  pub read-sgsn_mccmnc :
      (f : OtlText)
      → read_items k (field_item 10415 18 f ++ rest) r
        ≡ read_items k rest
            (record r { cache = record r.cache { sgsn_mccmnc = received f r.cache.sgsn_mccmnc } })
  unfolding read_items field_item read_item
  read-sgsn_mccmnc f = ground (arith)

  pub read-sgsn_ip_addr :
      (f : OtlText)
      → read_items k (field_item 10415 6 f ++ rest) r
        ≡ read_items k rest
            (record r { cache = record r.cache { sgsn_ip_addr = received f r.cache.sgsn_ip_addr } })
  unfolding read_items field_item read_item
  read-sgsn_ip_addr f = ground (arith)

  pub read-ip_can_type_code :
      (n : ℕ)
      → n < 4294967296
      → read_items k (code_item 10415 1027 n ++ rest) r
        ≡ read_items k rest (record r { cache = record r.cache { ip_can_type_code = n } })
  unfolding read_items code_item read_item u32
  read-ip_can_type_code n h = ground (arith, read_u32-u32 n h)

  pub read-rat_type_code :
      (n : ℕ)
      → n < 4294967296
      → read_items k (code_item 10415 1032 n ++ rest) r
        ≡ read_items k rest (record r { cache = record r.cache { rat_type_code = n } })
  unfolding read_items code_item read_item u32
  read-rat_type_code n h = ground (arith, read_u32-u32 n h)

  pub read-parent_id :
      (par : Option Text)
      → read_items k (option_item 65535 k.attr_pses par ++ rest) r
        ≡ read_items k rest (record r { parent_id = or_parent par r.parent_id })
  unfolding read_items option_item read_item
  read-parent_id none = refl
  read-parent_id (some x) = ground (arith, labels.1)

  pub read-rule_name :
      (name : Text)
      → read_items k (option_item 65535 k.attr_rulnm (some name)) r
        ≡ record r { rule_name = some name }
  unfolding read_items option_item read_item
  read-rule_name name = ground (arith, labels.1)
