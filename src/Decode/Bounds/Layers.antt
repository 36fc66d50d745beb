-- ===== src/Decode/Bounds/Layers.antt =====
-- The reads and the offset of the network layer and of all layers together, src/decoder.cpp.
use fdpi.Decode.Bounds.{
  and_then, Bounded-call, Bounded-elim, link_layer-Bounded, mpls_layer-Bounded,
}
use fdpi.Base.{
  ℕ, ◌+◌, ◌-◌, ◌*◌, ◌/◌, ◌^◌, ◌≤◌, ◌<◌, ◌≡◌, refl, true, Bool, ◌&&◌, Option, none, some, length,
  drop, length-drop, ltb, ◌==◌, arith,
}
use fdpi.Wire.{Bytes, Outcome, ok, err, fault, and_then}
use fdpi.Wire.Bounded.{
  Bounded, returns, fails, Bounded-if, Bounded-weaken, Bounded-at, Bounded-be16,
}
use fdpi.Header.Ipv4.{Ipv4, decode_ipv4}
use fdpi.Header.Ipv6.{Ipv6}
use fdpi.Header.Bounds.{decode_arp-Bounded, decode_rarp-Bounded, decode_homeplug-Bounded}
use fdpi.Header.Bounds.Ip.{decode_ipv4-Bounded, decode_ipv6-Bounded, decode_eapol-Bounded}
use fdpi.Header.Bounds.Lldp.{decode_lldp-Bounded}
use fdpi.Header.Bounds.Tunnel.{decode_gre-Bounded}
use fdpi.Defrag.{Ended, returned, reads_outside, throws_length_error, Groups, is_fragment, process}
use fdpi.Defrag.Overread.{process-captured}
use fdpi.Link.{DataLinkType}
use fdpi.Decode.{Layer3, Layer4, Linked}
use fdpi.Decode.Network.{
  Inner, transport, final, defragment, ipv4_layer, ipv6_fragment, ipv6_layer, other_layer,
  network_layer, gre_inner, gre_layer,
}
use fdpi.Decode.Layers.{is_esp, upper_layers, from_inner, higher_layers, lower_layers}
use fdpi.Decode.Bounds.Upper.{transport_layer-Bounded, vxlan-Bounded, gtp_u-Bounded}

-- Every IPv4 fragment of the buffer, wherever its header stands, is there in full: the total length
-- that it announces covers its header and does not reach past the end of the buffer.
pub record IsCaptured (data' : Bytes) : Type 0 where
  pub small : length data' < 2 ^ 63
  pub whole :
      (o o' : ℕ) (h : Ipv4)
      → decode_ipv4 data' o ≡ ok h o'
      → is_fragment h ≡ true
      → (h.ihl * 4 ≤ h.total_length) × (h.total_length ≤ length (drop (o' - h.ihl * 4) data'))

-- What follows the defragmenter's answer, which is never a fault.
Bounded-answer {ℓ} :
    {A : Type ℓ} {lo hi : ℕ}
    → (r : Ended (Groups × Option Bytes)) {f : Groups → Outcome A} {g : Groups → Bytes → Outcome A}
    → (a : Groups × Option Bytes) × (r ≡ returned a)
    → ((groups : Groups) → Bounded lo hi (f groups))
    → ((groups : Groups) (d : Bytes) → Bounded lo hi (g groups d))
    → Bounded lo hi (elim r [
      | reads_outside ↦ fault
      | throws_length_error ↦ fault
      | returned (groups, result) ↦ elim result [ none ↦ f groups | some d ↦ g groups d ]
    ])
Bounded-answer (returned (groups, none)) n a b = a groups
Bounded-answer (returned (groups, some d)) n a b = b groups d
Bounded-answer reads_outside n a b = absurd (let e = n.1 in cc)
Bounded-answer throws_length_error n a b = absurd (let e = n.1 in cc)

-- A call that returns, with its equation kept.
Bounded-known {ℓ κ} :
    {A : Type ℓ} {B : Type κ} {hi o : ℕ} (m : Outcome A) {f : A → ℕ → Outcome B}
    → Bounded o hi m
    → ((a : A) (o' : ℕ) → m ≡ ok a o' → o' ≤ hi → Bounded o' hi (f a o'))
    → Bounded o hi (and_then m f)
unfolding and_then
Bounded-known (ok a o') (returns l u) g = Bounded-weaken l (g a o' refl u)
Bounded-known (err e o') (fails l u) g = fails l u
Bounded-known fault b g = elim b [ ]

module _ (groups : Groups) (data' : Bytes) (c : IsCaptured data') where
  defragment-Bounded :
      (h : Ipv4) (o o' : ℕ)
      → decode_ipv4 data' o ≡ ok h o'
      → is_fragment h ≡ true
      → o' ≤ length data'
      → Bounded o' (length data') (defragment groups data' h o')
  unfolding defragment
  defragment-Bounded h o o' e f u =
      let (headed, whole) = c.whole o o' h e f in
      Bounded-answer (process groups (drop (o' - h.ihl * 4) data') h)
        (process-captured groups (drop (o' - h.ihl * 4) data') h
          (omega (arith, length-drop (o' - h.ihl * 4) data', c.small)) headed whole)
        (λ _. returns (omega arith) u) λ _ _. returns (omega arith) u

  ipv4_layer-Bounded :
      (enable : Bool) (o : ℕ)
      → o ≤ length data'
      → Bounded o (length data') (ipv4_layer enable groups data' o)
  unfolding ipv4_layer
  ipv4_layer-Bounded enable o l =
      Bounded-known (decode_ipv4 data' o) (decode_ipv4-Bounded data' o l) λ h o' e u.
        Bounded-if (enable && is_fragment h) (λ f. defragment-Bounded h o o' e (ground arith) u)
          λ _. returns (omega arith) u

module _ (data' : Bytes) where
  ipv6_fragment-Bounded :
      (h : Ipv6) (o : ℕ) → o ≤ length data' → Bounded o (length data') (ipv6_fragment data' h o)
  unfolding ipv6_fragment
  ipv6_fragment-Bounded h o l =
      Bounded-if (ltb (length data') (o + 8)) (λ _. returns (omega arith) l)
        λ fits. Bounded-at _ _ (ground (arith, length-drop o data')) λ next.
          Bounded-be16 _ _ (ground (arith, length-drop o data')) λ field.
            Bounded-if (ltb 0 (field / 8)) (λ _. returns (omega arith) (ground arith))
              λ _. returns (omega arith) (ground arith)

  ipv6_layer-Bounded : (o : ℕ) → o ≤ length data' → Bounded o (length data') (ipv6_layer data' o)
  unfolding ipv6_layer
  ipv6_layer-Bounded o l = Bounded-call (decode_ipv6-Bounded data' o l) λ h o' u.
      Bounded-if (h.next_header == 44) (λ _. ipv6_fragment-Bounded h o' u)
        λ _. returns (omega arith) u

  other_layer-Bounded :
      (ether_type o : ℕ)
      → o ≤ length data'
      → Bounded o (length data') (other_layer ether_type data' o)
  unfolding other_layer
  other_layer-Bounded t o l =
      Bounded-if (t == 2054)
        (λ _. Bounded-call (decode_arp-Bounded data' o l) λ _ _ u. returns (omega arith) u)
        λ _.
          Bounded-if (t == 32821)
            (λ _. Bounded-call (decode_rarp-Bounded data' o l) λ _ _ u. returns (omega arith) u)
            λ _.
              Bounded-if (t == 34958)
                (λ _.
                  Bounded-call (decode_eapol-Bounded data' o l) λ _ _ u. returns (omega arith) u)
                λ _.
                  Bounded-if (t == 35020)
                    (λ _.
                      Bounded-call (decode_lldp-Bounded data' o l) λ _ _ u. returns (omega arith) u)
                    λ _.
                      Bounded-if (t == 35041)
                        (λ _.
                          Bounded-call (decode_homeplug-Bounded data' o l)
                            λ _ _ u. returns (omega arith) u)
                        λ _. returns (omega arith) l

  gre_inner-Bounded :
      (outer : Layer3) (protocol_type o : ℕ)
      → o ≤ length data'
      → Bounded o (length data') (gre_inner outer protocol_type data' o)
  unfolding gre_inner
  gre_inner-Bounded outer t o l =
      Bounded-if (t == 2048)
        (λ _. Bounded-call (decode_ipv4-Bounded data' o l) λ _ _ u. returns (omega arith) u)
        λ _.
          Bounded-if (t == 34525)
            (λ _. Bounded-call (decode_ipv6-Bounded data' o l) λ _ _ u. returns (omega arith) u)
            λ _. returns (omega arith) l

  gre_layer-Bounded :
      (inner : Inner) (o : ℕ)
      → o ≤ length data'
      → Bounded o (length data') (gre_layer inner data' o)
  unfolding gre_layer
  gre_layer-Bounded (final outer rest) o l = returns (omega arith) l
  gre_layer-Bounded (transport outer protocol) o l =
      Bounded-if (protocol == 47)
        (λ _.
          Bounded-call (decode_gre-Bounded data' o l)
            λ gre o' u. gre_inner-Bounded outer gre.protocol_type o' u)
        λ _. returns (omega arith) l

  upper_layers-Bounded :
      (linked : Linked) (groups : Groups) (three : Layer3) (four : Layer4) (o : ℕ)
      → o ≤ length data'
      → Bounded o (length data') (upper_layers linked groups three four data' o)
  unfolding upper_layers
  upper_layers-Bounded linked groups three four o l =
      Bounded-if (is_esp four) (λ _. returns (omega arith) l)
        λ _. Bounded-call (vxlan-Bounded _ data' o l) λ upper o' u.
          Bounded-call (gtp_u-Bounded upper data' o' u) λ _ _ u'. returns (omega arith) u'

  from_inner-Bounded :
      (linked : Linked) (groups : Groups) (inner : Inner) (o : ℕ)
      → o ≤ length data'
      → Bounded o (length data') (from_inner linked groups inner data' o)
  unfolding from_inner
  from_inner-Bounded linked groups (final outer rest) o l = returns (omega arith) l
  from_inner-Bounded linked groups (transport outer protocol) o l =
      Bounded-call (transport_layer-Bounded data' o l protocol)
        λ four o' u. upper_layers-Bounded linked groups outer four o' u

  pub higher_layers-Bounded :
      (linked : Linked) (groups : Groups) (inner : Inner) (o : ℕ)
      → o ≤ length data'
      → Bounded o (length data') (higher_layers linked groups inner data' o)
  unfolding higher_layers
  higher_layers-Bounded linked groups inner o l =
      Bounded-call (gre_layer-Bounded inner o l)
        λ inner' o' u. from_inner-Bounded linked groups inner' o' u

module _ (enable : Bool) (groups : Groups) (data' : Bytes) (c : IsCaptured data') where
  network_layer-Bounded :
      (ether_type o : ℕ)
      → o ≤ length data'
      → Bounded o (length data') (network_layer enable groups ether_type data' o)
  unfolding network_layer
  network_layer-Bounded t o l =
      Bounded-if (t == 2048) (λ _. ipv4_layer-Bounded groups data' c enable o l)
        λ _.
          Bounded-if (t == 34525)
            (λ _. Bounded-call (ipv6_layer-Bounded data' o l) λ _ _ u. returns (omega arith) u)
            λ _. Bounded-call (other_layer-Bounded data' t o l) λ _ _ u. returns (omega arith) u

  pub lower_layers-Bounded :
      (dlt : DataLinkType) → Bounded 0 (length data') (lower_layers enable groups dlt data')
  unfolding lower_layers
  lower_layers-Bounded dlt =
      Bounded-if (length data' == 0) (λ _. fails (omega arith) (omega arith))
        λ _. Bounded-call (link_layer-Bounded data' dlt) λ linked o u.
          Bounded-call (mpls_layer-Bounded data' o u linked.ether_type) λ t o' u'.
            Bounded-elim t (returns (omega arith) u') λ ether_type.
              Bounded-call (network_layer-Bounded ether_type o' u')
                λ _ _ u''. returns (omega arith) u''
