-- ===== src/Link/Bounds/Resolve.antt =====
-- The reads and the offset of `resolveDataLink` and of the decoders behind it, src/datalink.cpp.
use fdpi.Link.{
  dlt_other, byte_swap32, bsd_family, decode_bsd_null, decode_ethernet_dlt, decode_raw_ip, ppp_type,
  ppp_protocol, decode_ppp, decode_linux_sll, decode_linux_sll2, skip_routing, decode_token_ring,
  decode_fddi, decode_radiotap, resolve_data_link, DataLinkType, dlt_null, dlt_en10mb, dlt_raw,
  dlt_ppp, dlt_linux_sll, dlt_linux_sll2, dlt_ieee802_5, dlt_fddi, dlt_ieee802_11,
  dlt_ieee802_11_radiotap,
}
use fdpi.Base.{
  ℕ, ◌+◌, ◌/◌, ◌%◌, ◌≤◌, ◌≡◌, false, ◌&&◌, ◌||◌, length, length-drop, ltb, leb, ◌==◌, arith,
  if◌then◌else◌,
}
use fdpi.Wire.{Bytes}
use fdpi.Wire.Bounded.{
  Bounded, returns, fails, Bounded-if, Bounded-weaken, Bounded-guard, Bounded-and_then, Bounded-at,
  Bounded-be16, Bounded-le16, Bounded-copy,
}
use fdpi.Header.Bounds.{decode_ethernet-Bounded}
use fdpi.Link.Llc.{LinkLayerResult}
use fdpi.Link.Bounds.{decode_llc_snap-Bounded, decode_wifi-Bounded}

-- A guard that asks for one byte in the other direction: `data.size() <= offset`.
nonempty : (data' : Bytes) (o : ℕ) → leb (length data') o ≡ false → o + 1 ≤ length data'
nonempty data' o h = ground arith

module _ (data' : Bytes) (o : ℕ) (h : o ≤ length data') where
  ppp_type-Bounded : (protocol : ℕ) → Bounded o (length data') (ppp_type protocol o)
  unfolding ppp_type
  ppp_type-Bounded protocol =
      Bounded-if (protocol == 33) (λ _. returns (omega arith) h)
        λ _. Bounded-if (protocol == 87) (λ _. returns (omega arith) h) λ _. fails (omega arith) h

  bsd_family-Bounded : (val : ℕ) → Bounded o (length data') (bsd_family val o)
  unfolding bsd_family
  bsd_family-Bounded val =
      let af = if ltb 255 val then byte_swap32 val else val in
      Bounded-if (af == 2) (λ _. returns (omega arith) h)
        λ _.
          Bounded-if (af == 10 || af == 24 || af == 28 || af == 30) (λ _. returns (omega arith) h)
            λ _. fails (omega arith) h

module _ (data' : Bytes) (o : ℕ) (h : o ≤ length data') where
  bsd_null-Bounded : Bounded o (length data') (decode_bsd_null data' o)
  unfolding decode_bsd_null
  bsd_null-Bounded = Bounded-guard data' o 4 h λ room fits. Bounded-le16 _ _ (omega arith) λ _.
      Bounded-le16 _ _ (omega arith)
        λ _. Bounded-weaken (omega arith) (bsd_family-Bounded data' (o + 4) fits _)

  ethernet_dlt-Bounded : Bounded o (length data') (decode_ethernet_dlt data' o)
  unfolding decode_ethernet_dlt
  ethernet_dlt-Bounded =
      Bounded-and_then _ _ o (omega arith) (decode_ethernet-Bounded data' o h)
        λ _ _ l u. returns l u

  raw_ip-Bounded : Bounded o (length data') (decode_raw_ip data' o)
  unfolding decode_raw_ip
  raw_ip-Bounded =
      Bounded-if (leb (length data') o) (λ _. fails (omega arith) h)
        λ more. Bounded-at _ _ (omega (arith, length-drop o data', nonempty data' o more)) λ b.
          Bounded-if (b / 16 % 16 == 4) (λ _. returns (omega arith) h)
            λ _.
              Bounded-if (b / 16 % 16 == 6) (λ _. returns (omega arith) h)
                λ _. fails (omega arith) h

  ppp_protocol-Bounded :
      (s : ℕ) → o + s + 1 ≤ length data' → Bounded o (length data') (ppp_protocol data' o s)
  unfolding ppp_protocol
  ppp_protocol-Bounded s one = Bounded-at _ _ (omega (arith, length-drop o data')) λ b.
      Bounded-if (b % 2 == 1)
        (λ _. Bounded-weaken (omega arith) (ppp_type-Bounded data' (o + s + 1) one b))
        λ _.
          Bounded-if (ltb (length data') (o + s + 2)) (λ _. fails (omega arith) h)
            λ two. Bounded-be16 _ _ (ground (arith, length-drop o data')) λ _.
              Bounded-weaken (omega arith) (ppp_type-Bounded data' (o + s + 2) (ground arith) _)

  ppp-Bounded : Bounded o (length data') (decode_ppp data' o)
  unfolding decode_ppp
  ppp-Bounded =
      Bounded-if (leb (length data') o) (λ _. fails (omega arith) h)
        λ more.
          Bounded-if (ltb (length data') (o + 2))
            (λ _. ppp_protocol-Bounded 0 (omega (arith, nonempty data' o more)))
            λ two. Bounded-at _ _ (ground (arith, length-drop o data')) λ a.
              Bounded-at _ _ (ground (arith, length-drop o data')) λ b.
                Bounded-if (a == 255 && b == 3)
                  (λ _.
                    Bounded-if (ltb (length data') (o + 2 + 1)) (λ _. fails (omega arith) h)
                      λ three. ppp_protocol-Bounded 2 (ground arith))
                  λ _. ppp_protocol-Bounded 0 (omega (arith, nonempty data' o more))

  linux_sll-Bounded : Bounded o (length data') (decode_linux_sll data' o)
  unfolding decode_linux_sll
  linux_sll-Bounded = Bounded-guard data' o 16 h λ room fits.
      Bounded-be16 _ _ (omega arith) λ addr_len. Bounded-be16 _ _ (omega arith) λ protocol.
        Bounded-if (leb 6 addr_len)
          (λ _. Bounded-copy _ _ _ (omega arith) λ _. returns (omega arith) (omega arith))
          λ _. returns (omega arith) (omega arith)

  linux_sll2-Bounded : Bounded o (length data') (decode_linux_sll2 data' o)
  unfolding decode_linux_sll2
  linux_sll2-Bounded = Bounded-guard data' o 20 h λ room fits.
      Bounded-be16 _ _ (omega arith) λ protocol. Bounded-at _ _ (omega arith) λ addr_len.
        Bounded-if (leb 6 addr_len)
          (λ _. Bounded-copy _ _ _ (omega arith) λ _. returns (omega arith) (omega arith))
          λ _. returns (omega arith) (omega arith)

  skip_routing-Bounded :
      (result : LinkLayerResult) → Bounded o (length data') (skip_routing data' o result)
  unfolding skip_routing
  skip_routing-Bounded result = Bounded-guard data' o 2 h λ room fits.
      Bounded-at _ _ (omega arith) λ b.
        Bounded-if (ltb (b % 32) 2 || ltb (length data') (o + b % 32)) (λ _. fails (omega arith) h)
          λ ok'.
            Bounded-weaken (omega arith)
              (decode_llc_snap-Bounded data' (o + b % 32) result (ground arith))

module _ (data' : Bytes) (o : ℕ) (h : o ≤ length data') where
  token_ring-Bounded : Bounded o (length data') (decode_token_ring data' o)
  unfolding decode_token_ring
  token_ring-Bounded = Bounded-guard data' o 14 h λ room fits. Bounded-copy _ _ _ (omega arith) λ _.
      Bounded-at _ _ (omega arith) λ first. Bounded-copy _ _ _ (omega arith) λ _.
        Bounded-if (leb 128 first)
          (λ _. Bounded-weaken (omega arith) (skip_routing-Bounded data' (o + 14) fits _))
          λ _. Bounded-weaken (omega arith) (decode_llc_snap-Bounded data' (o + 14) _ fits)

  fddi-Bounded : Bounded o (length data') (decode_fddi data' o)
  unfolding decode_fddi
  fddi-Bounded = Bounded-guard data' o 13 h λ room fits. Bounded-copy _ _ _ (omega arith) λ _.
      Bounded-copy _ _ _ (omega arith)
        λ _. Bounded-weaken (omega arith) (decode_llc_snap-Bounded data' (o + 13) _ fits)

  radiotap-Bounded : Bounded o (length data') (decode_radiotap data' o)
  unfolding decode_radiotap
  radiotap-Bounded = Bounded-guard data' o 8 h λ room fits. Bounded-le16 _ _ (omega arith) λ n.
      Bounded-if (ltb n 8 || ltb (length data') (o + n)) (λ _. fails (omega arith) h)
        λ enough. Bounded-weaken (omega arith) (decode_wifi-Bounded data' (o + n) (ground arith))

  -- For every link type and buffer, from an offset inside the buffer, `resolveDataLink` reads no
  -- byte outside the buffer, and leaves the offset between its old value and the end of the
  -- buffer, also on an error.
  pub resolve_data_link-Bounded :
      (dlt : DataLinkType) → Bounded o (length data') (resolve_data_link dlt data' o)
  unfolding resolve_data_link
  resolve_data_link-Bounded dlt_null = bsd_null-Bounded data' o h
  resolve_data_link-Bounded dlt_en10mb = ethernet_dlt-Bounded data' o h
  resolve_data_link-Bounded dlt_raw = raw_ip-Bounded data' o h
  resolve_data_link-Bounded dlt_ppp = ppp-Bounded data' o h
  resolve_data_link-Bounded dlt_linux_sll = linux_sll-Bounded data' o h
  resolve_data_link-Bounded dlt_linux_sll2 = linux_sll2-Bounded data' o h
  resolve_data_link-Bounded dlt_ieee802_5 = token_ring-Bounded
  resolve_data_link-Bounded dlt_fddi = fddi-Bounded
  resolve_data_link-Bounded dlt_ieee802_11 = decode_wifi-Bounded data' o h
  resolve_data_link-Bounded dlt_ieee802_11_radiotap = radiotap-Bounded
  resolve_data_link-Bounded (dlt_other _) = fails (omega arith) h
