-- ===== src/Tests/Packets.antt =====
-- A concrete CPSPacket and concrete numbers, by which the statements about src/pcrf_ipc.cpp are
-- instantiated.
use pcrf.Common.{
  ℕ, zero, suc, ◌≡◌, refl, ap, Option, none, some, List, [], ◌∷◌, ◌++◌, arith, Option-cases, inl,
  inr,
}
use pcrf.Common.Text.{Text}
use pcrf.Common.Lists.{length, take, drop}
use pcrf.Ipc.Codes.{Codes, SwitchLabels, PsPacket, PsPacketLaws, Parsed}

abbrev pub codes : Codes
codes = record {
  ps_admcmd = 1;
  ps_subscr = 2;
  attr_avp = 3;
  attr_cgi = 4;
  attr_ecgi = 5;
  attr_tai = 6;
  attr_imei = 7;
  attr_imsi = 8;
  attr_e164 = 9;
  attr_pses = 10;
  attr_ipcantype = 11;
  attr_rattype = 12;
  attr_rulnm = 13;
  cmd_insert_session = 1;
  cmd_remove_session = 2;
  cmd_insert_sessrul = 3;
  cmd_remove_sessrul = 4;
  cmd_sess_usage = 5;
  get_info_from_cache = 6;
  admin_req = 7;
}

pub labels : SwitchLabels codes
labels = ground arith

-- A buffer is the number of attributes, the number and the type of the request, and the
-- attributes, the last one first, each with its id and length.
unfoldable parse_attrs : ℕ → Text → Option (List (ℕ × Text))
parse_attrs zero rest = some []
parse_attrs (suc n) [] = none
parse_attrs (suc n) (id ∷ []) = none
parse_attrs (suc n) (id ∷ len ∷ rest) = elim (parse_attrs n (drop len rest)) [
  | none ↦ none
  | some l ↦ some (l ++ (id, take len rest) ∷ [])
]

unfoldable pub parse_packet : Text → Option Parsed
unfolding parse_attrs
parse_packet (n ∷ num ∷ type ∷ rest) = elim (parse_attrs n rest) [
  | none ↦ none
  | some l ↦ some (record { req_num = num; req_type = type; attrs = l })
]
parse_packet _ = none

unfoldable pub add_packet_attr : Text → ℕ → ℕ → Text → Option Text
add_packet_attr (n ∷ num ∷ type ∷ rest) size id content =
    some (suc n ∷ num ∷ type ∷ id ∷ length content ∷ content ++ rest)
add_packet_attr _ size id content = none

-- The bytes of a stack that was not used before.
abbrev pub zeros : ℕ → Text
zeros zero = []
zeros (suc n) = 0 ∷ zeros n

abbrev pub packets : PsPacket
packets = record {
  init = λ size num type. (0, 0 ∷ num ∷ type ∷ []);
  add_attr = add_packet_attr;
  parse = parse_packet;
  stack = zeros 4096;
}

take-content : (x rest : Text) → take (length x) (x ++ rest) ≡ x
take-content [] rest = refl
take-content (a ∷ x) rest = ap (◌∷◌ a) (take-content x rest)

drop-content : (x rest : Text) → drop (length x) (x ++ rest) ≡ rest
drop-content [] rest = refl
drop-content (a ∷ x) rest = drop-content x rest

parse-added :
    (size id : ℕ) (content buf next : Text) (r : Parsed)
    → parse_packet buf ≡ some r
    → add_packet_attr buf size id content ≡ some next
    → parse_packet next ≡ some (record r { attrs = r.attrs ++ (id, content) ∷ [] })
unfolding parse_packet parse_attrs add_packet_attr
parse-added size id content (n ∷ num ∷ type ∷ rest) next r h e =
    elim (Option-cases (parse_attrs n rest)) [
      | inl fails ↦ ground (arith, h, fails)
      | inr (l, parses) ↦
          ground (arith, h, e, parses, take-content content rest, drop-content content rest)
    ]
parse-added size id content [] next r h e = ground (arith, h)
parse-added size id content (a ∷ []) next r h e = ground (arith, h)
parse-added size id content (a ∷ b ∷ []) next r h e = ground (arith, h)

parse-started :
    (size num type : ℕ) (buf : Text)
    → packets.init size num type ≡ (0, buf)
    → parse_packet buf ≡ some (record { req_num = num; req_type = type; attrs = [] })
unfolding parse_packet parse_attrs
parse-started size num type buf e = ground (arith, e)

pub laws : PsPacketLaws packets
laws = record {
  parse-init = parse-started;
  parse-add_attr =
      λ size id content buf next r h same short e. parse-added size id content buf next r h e;
}
