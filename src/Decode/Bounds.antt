-- ===== src/Decode/Bounds.antt =====
-- The reads and the offset of `PacketDecoder::decode` of src/decoder.cpp, layer by layer.
pub mod Upper
pub mod Layers
pub mod Captured
use fdpi.Base.{
  refl, ◌∙◌, ◌⊎◌, inl, inr, Bool-cases, if_true, if_false, ℕ, zero, suc, ◌+◌, ◌/◌, ◌%◌, ◌≤◌, ◌<◌,
  ◌≡◌, true, false, Bool, ◌&&◌, ◌||◌, Option, none, some, length, drop, length-drop, ltb, ◌==◌,
  arith, if◌then◌else◌,
}
use fdpi.Wire.{Bytes, Outcome, ok, err, truncated_header, ◌>>=◌, and_then, or_none}
use fdpi.Wire.Bounded.{
  Bounded, returns, fails, Bounded-if, Bounded-weaken, Bounded-and_then, Bounded-or_none,
  Bounded-at, be16-Readable, room,
}
use fdpi.Header.Bounds.{decode_ethernet-Bounded}
use fdpi.Header.Ethernet.{VlanTag, decode_vlan}
use fdpi.Header.Bounds.Tunnel.{decode_mpls-Bounded}
use fdpi.Link.{
  DataLinkType, dlt_null, dlt_en10mb, dlt_raw, dlt_ppp, dlt_linux_sll, dlt_linux_sll2,
  dlt_ieee802_5, dlt_fddi, dlt_ieee802_11, dlt_ieee802_11_radiotap, dlt_other,
}
use fdpi.Link.Bounds.Resolve.{resolve_data_link-Bounded}
use fdpi.Decode.{Linked, is_vlan}
use fdpi.Decode.Link.{
  vlan_loop, vlan_tags, ethernet_link, generic_link, link_layer, is_cooked, nibble_type, mpls_layer,
  linked_of,
}

-- A call that reads from the offset on, and then the rest.
pub Bounded-call {ℓ κ} :
    {A : Type ℓ} {B : Type κ} {hi o : ℕ} {m : Outcome A} {f : A → ℕ → Outcome B}
    → Bounded o hi m
    → ((a : A) (o' : ℕ) → o' ≤ hi → Bounded o' hi (f a o'))
    → Bounded o hi (and_then m f)
Bounded-call {o} {m} {f} b g =
    Bounded-and_then m f o (omega arith) b λ a o' l u. Bounded-weaken l (g a o' u)

-- The same for a call whose error is passed over.
pub Bounded-try {ℓ κ} :
    {A : Type ℓ} {B : Type κ} {hi o : ℕ} {m : Outcome A} {f : Option A → ℕ → Outcome B}
    → Bounded o hi m
    → ((a : Option A) (o' : ℕ) → o' ≤ hi → Bounded o' hi (f a o'))
    → Bounded o hi (or_none m f)
Bounded-try {m} {f} b g = Bounded-or_none m f _ b λ a o' l u. Bounded-weaken l (g a o' u)

-- What follows such a call, whether it has set its header or not.
pub Bounded-elim {ℓ κ} :
    {A : Type ℓ} {B : Type κ} {lo hi : ℕ} (a : Option A) {x : Outcome B} {f : A → Outcome B}
    → Bounded lo hi x
    → ((a : A) → Bounded lo hi (f a))
    → Bounded lo hi (elim a [ none ↦ x | some b ↦ f b ])
Bounded-elim none b g = b
Bounded-elim (some a) b g = g a

module _ (data' : Bytes) (o : ℕ) (h : o ≤ length data') where
  decode_vlan-cases :
      (decode_vlan data' o ≡ err truncated_header o)
      ⊎ ((tag : VlanTag) × (decode_vlan data' o ≡ ok tag (o + 4)) × (o + 4 ≤ length data'))
  unfolding decode_vlan ◌>>=◌
  decode_vlan-cases = elim (Bool-cases (ltb (length data') (o + 4))) [
    | inl short ↦ inl (if_true _ _ _ short)
    | inr fits ↦
        let (a, ea) = be16-Readable (drop o data') 0 (omega (arith, room data' o 4 fits)) in
        let (b, eb) = be16-Readable (drop o data') 2 (omega (arith, room data' o 4 fits)) in
        inr
          (record { tci = a; ether_type = b }, if_false _ _ _ fits ∙ rw (ea, eb) refl, ground arith)
  ]

vlan_loop-Bounded :
    (fuel : ℕ) (data' : Bytes) (linked : Linked) (o : ℕ)
    → o ≤ length data'
    → length data' < fuel + o
    → Bounded o (length data') (vlan_loop fuel data' linked o)
unfolding vlan_loop and_then
vlan_loop-Bounded zero data' linked o h enough = absurd (omega arith)
vlan_loop-Bounded (suc fuel) data' linked o h enough =
    Bounded-if (is_vlan linked.ether_type)
      (λ _. elim (decode_vlan-cases data' o h) [
        | inl e ↦ rw e (fails (omega arith) h)
        | inr (tag, e, fits) ↦ rw e (
            Bounded-weaken (omega arith) (
              vlan_loop-Bounded fuel data'
                (record linked { vlan = some tag; ether_type = tag.ether_type }) (o + 4) fits
                (omega arith)))
      ])
      λ _. returns (omega arith) h

vlan_tags-Bounded :
    (data' : Bytes) (linked : Linked) (o : ℕ)
    → o ≤ length data'
    → Bounded o (length data') (vlan_tags data' linked o)
unfolding vlan_tags
vlan_tags-Bounded data' linked o h =
    vlan_loop-Bounded (suc (length data')) data' linked o h (omega arith)

module _ (data' : Bytes) where
  ethernet_link-Bounded : Bounded 0 (length data') (ethernet_link data')
  unfolding ethernet_link
  ethernet_link-Bounded =
      Bounded-call (decode_ethernet-Bounded data' 0 (omega arith))
        λ eth o u. vlan_tags-Bounded data' _ o u

  generic_link-Bounded : (dlt : DataLinkType) → Bounded 0 (length data') (generic_link dlt data')
  unfolding generic_link
  generic_link-Bounded dlt =
      Bounded-call (resolve_data_link-Bounded data' 0 (omega arith) dlt) λ result o u.
        Bounded-if (is_cooked dlt) (λ _. vlan_tags-Bounded data' _ o u) λ _. returns (omega arith) u

  pub link_layer-Bounded : (dlt : DataLinkType) → Bounded 0 (length data') (link_layer dlt data')
  unfolding link_layer
  link_layer-Bounded dlt_en10mb = ethernet_link-Bounded
  link_layer-Bounded dlt_null = generic_link-Bounded dlt_null
  link_layer-Bounded dlt_raw = generic_link-Bounded dlt_raw
  link_layer-Bounded dlt_ppp = generic_link-Bounded dlt_ppp
  link_layer-Bounded dlt_linux_sll = generic_link-Bounded dlt_linux_sll
  link_layer-Bounded dlt_linux_sll2 = generic_link-Bounded dlt_linux_sll2
  link_layer-Bounded dlt_ieee802_5 = generic_link-Bounded dlt_ieee802_5
  link_layer-Bounded dlt_fddi = generic_link-Bounded dlt_fddi
  link_layer-Bounded dlt_ieee802_11 = generic_link-Bounded dlt_ieee802_11
  link_layer-Bounded dlt_ieee802_11_radiotap = generic_link-Bounded dlt_ieee802_11_radiotap
  link_layer-Bounded (dlt_other n) = generic_link-Bounded (dlt_other n)

module _ (data' : Bytes) (o : ℕ) (h : o ≤ length data') where
  pub mpls_layer-Bounded :
      (ether_type : ℕ) → Bounded o (length data') (mpls_layer data' ether_type o)
  unfolding mpls_layer nibble_type
  mpls_layer-Bounded ether_type =
      Bounded-if (ether_type == 34887)
        (λ _. Bounded-call (decode_mpls-Bounded data' o h) λ _ o' u.
          Bounded-if (ltb o' (length data'))
            (λ more. Bounded-at _ _ (ground (arith, length-drop o' data')) λ b.
              Bounded-if (b / 16 % 16 == 4) (λ _. returns (omega arith) u)
                λ _.
                  Bounded-if (b / 16 % 16 == 6) (λ _. returns (omega arith) u)
                    λ _. returns (omega arith) u)
            λ _. returns (omega arith) u)
        λ _. returns (omega arith) h
