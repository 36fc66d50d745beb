-- ===== src/Decode/Bounds/Upper.antt =====
-- The reads and the offset of the transport layer and the tunnels of src/decoder.cpp.
use fdpi.Base.{ℕ, ◌+◌, ◌/◌, ◌%◌, ◌≤◌, ◌&&◌, length, length-drop, ltb, ◌==◌, arith}
use fdpi.Wire.{Bytes}
use fdpi.Wire.Bounded.{Bounded, returns, Bounded-if, Bounded-weaken, Bounded-at}
use fdpi.Header.Bounds.{
  decode_ethernet-Bounded, decode_vlan-Bounded, decode_udp-Bounded, decode_igmp-Bounded,
  decode_esp-Bounded,
}
use fdpi.Header.Bounds.Ip.{decode_ipv4-Bounded, decode_ipv6-Bounded, decode_tcp-Bounded}
use fdpi.Header.Bounds.Tunnel.{decode_gtp-Bounded, decode_icmp-Bounded, decode_icmpv6-Bounded}
use fdpi.Decode.{Layer4, is_vlan}
use fdpi.Decode.Transport.{transport_layer, inner_transport}
use fdpi.Decode.Tunnels.{
  Upper, is_udp_to, inner_ipv4, inner_ipv6, inner_network, inner_vlan, vxlan, gtp_inner, gtp_u,
}
use fdpi.Decode.Bounds.{Bounded-call, Bounded-try, Bounded-elim}

module _ (data' : Bytes) (o : ℕ) (h : o ≤ length data') where
  pub transport_layer-Bounded :
      (protocol : ℕ) → Bounded o (length data') (transport_layer protocol data' o)
  unfolding transport_layer
  transport_layer-Bounded protocol =
      Bounded-if (protocol == 6)
        (λ _. Bounded-call (decode_tcp-Bounded data' o h) λ _ _ u. returns (omega arith) u)
        λ _.
          Bounded-if (protocol == 17)
            (λ _. Bounded-call (decode_udp-Bounded data' o h) λ _ _ u. returns (omega arith) u)
            λ _.
              Bounded-if (protocol == 1)
                (λ _. Bounded-call (decode_icmp-Bounded data' o h) λ _ _ u. returns (omega arith) u)
                λ _.
                  Bounded-if (protocol == 58)
                    (λ _.
                      Bounded-call (decode_icmpv6-Bounded data' o h)
                        λ _ _ u. returns (omega arith) u)
                    λ _.
                      Bounded-if (protocol == 2)
                        (λ _.
                          Bounded-call (decode_igmp-Bounded data' o h)
                            λ _ _ u. returns (omega arith) u)
                        λ _.
                          Bounded-if (protocol == 50)
                            (λ _.
                              Bounded-call (decode_esp-Bounded data' o h)
                                λ _ _ u. returns (omega arith) u)
                            λ _. returns (omega arith) h

  inner_transport-Bounded :
      (protocol : ℕ) (old : Layer4)
      → Bounded o (length data') (inner_transport protocol old data' o)
  unfolding inner_transport
  inner_transport-Bounded protocol old =
      Bounded-if (protocol == 6)
        (λ _. Bounded-try (decode_tcp-Bounded data' o h) λ _ _ u. returns (omega arith) u)
        λ _.
          Bounded-if (protocol == 17)
            (λ _. Bounded-try (decode_udp-Bounded data' o h) λ _ _ u. returns (omega arith) u)
            λ _.
              Bounded-if (protocol == 1)
                (λ _. Bounded-try (decode_icmp-Bounded data' o h) λ _ _ u. returns (omega arith) u)
                λ _.
                  Bounded-if (protocol == 58)
                    (λ _.
                      Bounded-try (decode_icmpv6-Bounded data' o h)
                        λ _ _ u. returns (omega arith) u)
                    λ _. returns (omega arith) h

module _ (upper : Upper) (data' : Bytes) where
  inner_ipv4-Bounded :
      (o : ℕ) → o ≤ length data' → Bounded o (length data') (inner_ipv4 upper data' o)
  unfolding inner_ipv4
  inner_ipv4-Bounded o h = Bounded-try (decode_ipv4-Bounded data' o h) λ ip o' u.
      Bounded-elim ip (returns (omega arith) u) λ i.
        Bounded-call (inner_transport-Bounded data' o' u i.protocol upper.layer4)
          λ _ _ u'. returns (omega arith) u'

  inner_ipv6-Bounded :
      (o : ℕ) → o ≤ length data' → Bounded o (length data') (inner_ipv6 upper data' o)
  unfolding inner_ipv6
  inner_ipv6-Bounded o h = Bounded-try (decode_ipv6-Bounded data' o h) λ ip o' u.
      Bounded-elim ip (returns (omega arith) u) λ i.
        Bounded-call (inner_transport-Bounded data' o' u i.next_header upper.layer4)
          λ _ _ u'. returns (omega arith) u'

  inner_network-Bounded :
      (ether_type o : ℕ)
      → o ≤ length data'
      → Bounded o (length data') (inner_network ether_type upper data' o)
  unfolding inner_network
  inner_network-Bounded ether_type o h =
      Bounded-if (ether_type == 2048) (λ _. inner_ipv4-Bounded o h)
        λ _.
          Bounded-if (ether_type == 34525) (λ _. inner_ipv6-Bounded o h)
            λ _. returns (omega arith) h

  inner_vlan-Bounded :
      (ether_type o : ℕ)
      → o ≤ length data'
      → Bounded o (length data') (inner_vlan ether_type upper data' o)
  unfolding inner_vlan
  inner_vlan-Bounded ether_type o h =
      Bounded-if (is_vlan ether_type)
        (λ _. Bounded-try (decode_vlan-Bounded data' o h) λ _ o' u. inner_network-Bounded _ o' u)
        λ _. inner_network-Bounded ether_type o h

  pub vxlan-Bounded : (o : ℕ) → o ≤ length data' → Bounded o (length data') (vxlan upper data' o)
  unfolding vxlan
  vxlan-Bounded o h =
      Bounded-if (is_udp_to 4789 upper.layer4 && ltb (o + 8) (length data'))
        (λ more. Bounded-weaken (omega arith) (
          Bounded-try (decode_ethernet-Bounded data' (o + 8) (ground arith)) λ eth o' u.
            Bounded-elim eth (returns (omega arith) u) λ e. inner_vlan-Bounded e.ether_type o' u))
        λ _. returns (omega arith) h

  gtp_inner-Bounded :
      (o : ℕ) → o ≤ length data' → Bounded o (length data') (gtp_inner upper data' o)
  unfolding gtp_inner
  gtp_inner-Bounded o h =
      Bounded-if (ltb o (length data'))
        (λ more. Bounded-at _ _ (ground (arith, length-drop o data')) λ b.
          Bounded-if (b / 16 % 16 == 4) (λ _. inner_ipv4-Bounded o h)
            λ _.
              Bounded-if (b / 16 % 16 == 6) (λ _. inner_ipv6-Bounded o h)
                λ _. returns (omega arith) h)
        λ _. returns (omega arith) h

  pub gtp_u-Bounded : (o : ℕ) → o ≤ length data' → Bounded o (length data') (gtp_u upper data' o)
  unfolding gtp_u
  gtp_u-Bounded o h =
      Bounded-if (is_udp_to 2152 upper.layer4 && ltb o (length data'))
        (λ _.
          Bounded-try (decode_gtp-Bounded data' o h)
            λ gtp o' u. Bounded-elim gtp (returns (omega arith) u) λ _. gtp_inner-Bounded o' u)
        λ _. returns (omega arith) h
