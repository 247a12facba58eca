-- ===== src/Ipc/Codes.antt =====
-- What src/pcrf_ipc.cpp takes from the pspacket library, which is not part of the repository: the
-- numbers of commands and attributes, and the class CPSPacket.
use pcrf.Common.{ℕ, ◌<◌, ◌≤◌, ◌≡◌, ◌≢◌, Option, some, List, [], ◌∷◌, ◌++◌}
use pcrf.Common.Text.{Text}
use pcrf.Common.Lists.{length}

-- The numbers of pspacket's headers.
pub record Codes : Type 0 where
  pub ps_admcmd : ℕ
  pub ps_subscr : ℕ
  pub attr_avp : ℕ
  pub attr_cgi : ℕ
  pub attr_ecgi : ℕ
  pub attr_tai : ℕ
  pub attr_imei : ℕ
  pub attr_imsi : ℕ
  pub attr_e164 : ℕ
  pub attr_pses : ℕ
  pub attr_ipcantype : ℕ
  pub attr_rattype : ℕ
  pub attr_rulnm : ℕ
  pub cmd_insert_session : ℕ
  pub cmd_remove_session : ℕ
  pub cmd_insert_sessrul : ℕ
  pub cmd_remove_sessrul : ℕ
  pub cmd_sess_usage : ℕ
  pub get_info_from_cache : ℕ
  pub admin_req : ℕ

-- Each number differs from all that follow it, and is a uint16_t.
abbrev Differs : ℕ → List ℕ → Type 0
Differs n [] = n < 65536
Differs n (m ∷ ms) = (n ≢ m) × Differs n ms

abbrev Distinct : List ℕ → Type 0
Distinct [] = Unit {0}
Distinct (n ∷ ns) = Differs n ns × Distinct ns

-- The compiler accepts the three switches only if the labels of each are distinct.
abbrev pub SwitchLabels : Codes → Type 0
SwitchLabels k =
    Distinct (k.attr_avp ∷ k.ps_admcmd ∷ k.ps_subscr ∷ 1066 ∷ [])
    × Distinct (
        k.ps_subscr ∷ k.attr_cgi ∷ k.attr_ecgi ∷ k.attr_tai ∷ k.attr_imei ∷ k.attr_imsi
        ∷ k.attr_e164 ∷ k.attr_pses ∷ k.attr_ipcantype ∷ k.attr_rattype ∷ k.attr_rulnm ∷ [])
    × Distinct (
        k.cmd_insert_session ∷ k.cmd_remove_session ∷ k.cmd_insert_sessrul ∷ k.cmd_remove_sessrul
        ∷ k.cmd_sess_usage ∷ k.get_info_from_cache ∷ k.admin_req ∷ [])

-- What CPSPacket::Parse returns: the number and type of the request, and the attributes in the
-- order of the multimap.
pub record Parsed : Type 0 where
  pub req_num : ℕ
  pub req_type : ℕ
  pub attrs : List (ℕ × Text)

-- CPSPacket. A buffer is the bytes of the packet in it. `init` gives the result code and the
-- buffer; `add_attr` is `none` where AddAttr returns 0 or less, and else the packet whose length
-- AddAttr returns. `stack` is what mc_buf holds before, which is not initialised.
pub record PsPacket : Type 0 where
  pub init : ℕ → ℕ → ℕ → ℕ × Text
  pub add_attr : Text → ℕ → ℕ → Text → Option Text
  pub parse : Text → Option Parsed
  pub stack : Text

abbrev pub SameId : ℕ → List (ℕ × Text) → Type 0
SameId id [] = Unit {0}
SameId id ((j, d) ∷ l) = (j ≡ id) × SameId id l

-- What the code relies on: a packet that was built parses to its attributes. The law is stated
-- for attributes of one id, which a multimap keeps in the order in which they were added.
pub record PsPacketLaws (p : PsPacket) : Type 0 where
  pub parse-init :
      (size num type : ℕ) (buf : Text)
      → p.init size num type ≡ (0, buf)
      → p.parse buf ≡ some (record { req_num = num; req_type = type; attrs = [] })
  pub parse-add_attr :
      (size id : ℕ) (content buf next : Text) (r : Parsed)
      → p.parse buf ≡ some r
      → SameId id r.attrs
      → length content ≤ 256
      → p.add_attr buf size id content ≡ some next
      → p.parse next ≡ some (record r { attrs = r.attrs ++ (id, content) ∷ [] })
