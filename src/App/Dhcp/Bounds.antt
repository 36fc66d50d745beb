-- ===== src/App/Dhcp/Bounds.antt =====
-- The reads and offsets of src/protocol/dhcp.cpp and dhcpv6.cpp.
use fdpi.Base.{ℕ, zero, suc, ◌+◌, ◌≤◌, not, length, drop, length-drop, leb, ltb, ◌==◌, arith}
use fdpi.Wire.{Bytes, at, be16, copy}
use fdpi.Wire.Bounded.{
  Bounded, returns, fails, Bounded-if, Bounded-guard, Bounded-at, Bounded-be16, Bounded-be32,
  Bounded-copy, at-Readable, be16-Readable, copy-Readable,
}
use fdpi.Wire.Ensures.{Succeeds, succeeds, Succeeds-if, Succeeds-read, Bounded-Succeeds}
use fdpi.App.Dhcp.{
  DhcpOptions, no_options, note_option, dhcp_options, read_dhcp, decode_dhcp, Dhcpv6Options,
  note_option6, dhcpv6_options, no_options6, decode_dhcpv6,
}

module _ (p : Bytes) where
  dhcp_options-Succeeds :
      (fuel o : ℕ) (told : DhcpOptions)
      → o ≤ length p
      → Succeeds (length p) (dhcp_options fuel p o told)
  unfolding dhcp_options
  dhcp_options-Succeeds zero o told h = succeeds h
  dhcp_options-Succeeds (suc fuel) o told h =
      Succeeds-if (ltb o (length p))
        (λ more. Succeeds-read (at p o) (at-Readable p o (ground arith)) λ code.
          Succeeds-if (code == 255) (λ _. succeeds h)
            λ _.
              Succeeds-if (code == 0) (λ _. dhcp_options-Succeeds fuel (o + 1) told (ground arith))
                λ _.
                  Succeeds-if (leb (length p) (o + 1)) (λ _. succeeds h)
                    λ two.
                      Succeeds-read (at p (o + 1)) (at-Readable p (o + 1) (ground arith)) λ len.
                        Succeeds-if (ltb (length p) (o + 2 + len)) (λ _. succeeds h)
                          λ fits.
                            Succeeds-read (copy p (o + 2) len)
                              (copy-Readable p (o + 2) len (ground arith))
                              λ body.
                                dhcp_options-Succeeds fuel (o + 2 + len)
                                  (note_option told code body) (ground arith))
        λ _. succeeds h

  dhcpv6_options-Succeeds :
      (fuel o : ℕ) (told : Dhcpv6Options)
      → o ≤ length p
      → Succeeds (length p) (dhcpv6_options fuel p o told)
  unfolding dhcpv6_options
  dhcpv6_options-Succeeds zero o told h = succeeds h
  dhcpv6_options-Succeeds (suc fuel) o told h =
      Succeeds-if (leb (o + 4) (length p))
        (λ more. Succeeds-read (be16 p o) (be16-Readable p o (ground arith)) λ code.
          Succeeds-read (be16 p (o + 2)) (be16-Readable p (o + 2) (ground arith)) λ len.
            Succeeds-if (ltb (length p) (o + 4 + len)) (λ _. succeeds h)
              λ fits.
                Succeeds-read (copy p (o + 4) len) (copy-Readable p (o + 4) len (ground arith))
                  λ body.
                    dhcpv6_options-Succeeds fuel (o + 4 + len) (note_option6 told code body)
                      (ground arith))
        λ _. succeeds h

  read_dhcp-Bounded :
      (told : DhcpOptions) (lo hi : ℕ)
      → lo ≤ hi
      → 240 ≤ length p
      → Bounded lo hi (read_dhcp p told hi)
  unfolding read_dhcp
  read_dhcp-Bounded told lo hi h room = Bounded-at p 0 (omega arith) λ _.
      Bounded-at p 1 (omega arith) λ _. Bounded-at p 2 (omega arith) λ _.
        Bounded-at p 3 (omega arith) λ _. Bounded-be32 p 4 (omega arith) λ _.
          Bounded-be16 p 8 (omega arith) λ _. Bounded-be16 p 10 (omega arith) λ _.
            Bounded-copy p 12 4 (omega arith) λ _. Bounded-copy p 16 4 (omega arith) λ _.
              Bounded-copy p 20 4 (omega arith) λ _.
                Bounded-copy p 24 4 (omega arith)
                  λ _. Bounded-copy p 28 6 (omega arith) λ _. returns h (omega arith)

pub decode_dhcp-Bounded :
    (data' : Bytes) (o : ℕ) → o ≤ length data' → Bounded o (length data') (decode_dhcp data' o)
unfolding decode_dhcp
decode_dhcp-Bounded data' o h = Bounded-guard data' o 240 h λ room fits.
    Bounded-be32 _ _ (omega arith) λ cookie.
      Bounded-if (not (cookie == 1669485411)) (λ _. fails (omega arith) h)
        λ _.
          Bounded-Succeeds
            (dhcp_options-Succeeds (drop o data') (length data') 240 no_options (omega arith))
            λ told _ _. read_dhcp-Bounded (drop o data') told o (length data') h (omega arith)

pub decode_dhcpv6-Bounded :
    (data' : Bytes) (o : ℕ) → o ≤ length data' → Bounded o (length data') (decode_dhcpv6 data' o)
unfolding decode_dhcpv6
decode_dhcpv6-Bounded data' o h = Bounded-guard data' o 4 h λ room fits.
    Bounded-at _ _ (omega arith) λ message_type. Bounded-at _ _ (omega arith) λ _.
      Bounded-be16 _ _ (omega arith) λ _.
        Bounded-if (message_type == 0) (λ _. fails (omega arith) h)
          λ _.
            Bounded-Succeeds
              (dhcpv6_options-Succeeds (drop o data') (length data') 4 no_options6 (omega arith))
              λ told o' inside. returns (omega arith) (omega (arith, length-drop o data'))
