-- ===== src/Ipc/Delivery.antt =====
-- From the items that one node of src/pcrf_ipc.cpp packs to those that another reads.
use mathlib.Core.List.{append-nil, append_assoc}
use pcrf.Common.{
  ℕ, ◌+◌, ◌≤◌, ◌<◌, ◌≡◌, refl, ◌∙◌, some, List, [], ◌∷◌, ◌++◌, arith, Option-cases, inl, inr,
}
use pcrf.Common.Text.{Text}
use pcrf.Common.Lists.{length}
use pcrf.Ipc.Payload.{
  Item, fill_payload, fill_payload-fits, payload_bytes, read_payload-payload_bytes,
}
use pcrf.Ipc.Codes.{Codes, SwitchLabels, PsPacket, PsPacketLaws, Parsed, SameId}
use pcrf.Ipc.Pack.{packed, attr_size, buf_size, add_items}
use pcrf.Ipc.Process.{Request, read_item, read_attr, read_attrs}

-- Vendor and code of an item are 16-bit numbers, and the length of its content is not cut off.
abbrev pub Fits : List Item → Type 0
Fits [] = Unit {0}
Fits (it ∷ its) =
    (it.vend_id < 65536) × (it.avp_id < 65536) × (length it.content + 8 < 65536) × Fits its

-- The items in a request, read in turn.
unfoldable pub read_items : Codes → List Item → Request → Request
read_items k [] r = r
read_items k (it ∷ its) r = read_items k its (read_item k it r)

-- The attributes that hold items.
unfoldable pub attrs_of : ℕ → List Item → List (ℕ × Text)
attrs_of id [] = []
attrs_of id (it ∷ its) = (id, payload_bytes it.vend_id it.avp_id it.content) ∷ attrs_of id its

SameId-attrs_of :
    (id : ℕ) (l : List (ℕ × Text)) (x : Text) → SameId id l → SameId id (l ++ (id, x) ∷ [])
SameId-attrs_of id [] x h = (refl, tt)
SameId-attrs_of id ((j, y) ∷ l) x h = (h.0, SameId-attrs_of id l x h.1)

length-payload_bytes :
    (it : Item)
    → length it.content + 8 ≤ 256
    → length (payload_bytes it.vend_id it.avp_id it.content) ≤ 256
unfolding payload_bytes
length-payload_bytes it h = omega arith

-- Items that are packed after the attributes of `r` are parsed after them.
pub parse-add_items :
    (p : PsPacket) (k : Codes)
    → PsPacketLaws p
    → (its : List Item) (buf msg : Text) (r : Parsed) → Fits its
    → p.parse buf ≡ some r
    → SameId k.attr_avp r.attrs
    → add_items p k its buf ≡ packed msg
    → p.parse msg ≡ some (record r { attrs = r.attrs ++ attrs_of k.attr_avp its })
unfolding add_items attrs_of
parse-add_items p k laws [] buf msg r f h same e = ground (arith, append-nil r.attrs)
parse-add_items p k laws (it ∷ its) buf msg r f h same e =
    elim (Option-cases (fill_payload attr_size it)) [
      | inl long ↦ ground (arith, long)
      | inr (x, filled) ↦ elim (Option-cases (p.add_attr buf buf_size k.attr_avp x)) [
        | inl full ↦ ground (arith, filled, full)
        | inr (next, added) ↦
            let fits = fill_payload-fits attr_size it x (omega arith) filled in
            let r' : Parsed = record r { attrs = r.attrs ++ (k.attr_avp, x) ∷ [] } in
            parse-add_items p k laws its next msg r' f.3
              (laws.parse-add_attr buf_size k.attr_avp x buf next r h same
                (rw fits.0 (length-payload_bytes it fits.1)) added)
              (SameId-attrs_of k.attr_avp r.attrs x same) (ground (arith, filled, added))
            ∙ rw (append_assoc r.attrs ((k.attr_avp, x) ∷ []) (attrs_of k.attr_avp its), fits.0)
      ]
    ]

read_attr-payload_bytes :
    (k : Codes) (it : Item) (r : Request)
    → SwitchLabels k
    → it.vend_id < 65536
    → it.avp_id < 65536
    → length it.content + 8 < 65536
    → read_attr k k.attr_avp (payload_bytes it.vend_id it.avp_id it.content) r
      ≡ some (read_item k it r)
unfolding read_attr
read_attr-payload_bytes k it r labels v a l =
    ground (arith, labels.0.0, read_payload-payload_bytes it v a l)

-- The loop over the attributes reads back the items, in their order.
pub read_attrs-attrs_of :
    (k : Codes) (its : List Item) (r : Request)
    → SwitchLabels k
    → Fits its
    → read_attrs k (attrs_of k.attr_avp its) r ≡ some (read_items k its r)
unfolding read_attrs attrs_of read_items
read_attrs-attrs_of k [] r labels f = refl
read_attrs-attrs_of k (it ∷ its) r labels f = ground (
  arith,
  read_attr-payload_bytes k it r labels f.0 f.1 f.2,
  read_attrs-attrs_of k its (read_item k it r) labels f.3,
)
