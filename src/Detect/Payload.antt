-- ===== src/Detect/Payload.antt =====
-- What the tests of src/detection.cpp read: the transport header and bytes of the payload. `none` is
-- a read outside the payload. A test's bytes are read before they are compared.
use fdpi.Base.{
  ℕ, zero, suc, ◌+◌, Bool, true, false, ◌&&◌, ◌||◌, Option, none, some, List, leb, ◌==◌,
  if◌then◌else◌,
}
use fdpi.Wire.{Bytes, at, be16}
use fdpi.Header.Transport.{Tcp, Udp}
use fdpi.Flow.{AppProtocol}

-- What the detection reads of a packet: its transport header, if that is of TCP or UDP.
pub data Layer4 : Type 0 where
  tcp_layer : Tcp → Layer4
  udp_layer : Udp → Layer4
  other_layer : Layer4

unfoldable pub is_tcp : Layer4 → Bool
is_tcp (tcp_layer _) = true
is_tcp (udp_layer _) = false
is_tcp other_layer = false

unfoldable pub is_udp : Layer4 → Bool
is_udp (tcp_layer _) = false
is_udp (udp_layer _) = true
is_udp other_layer = false

unfoldable pub src_port_of : Layer4 → ℕ
src_port_of (tcp_layer tcp) = tcp.src_port
src_port_of (udp_layer udp) = udp.src_port
src_port_of other_layer = 0

unfoldable pub dst_port_of : Layer4 → ℕ
dst_port_of (tcp_layer tcp) = tcp.dst_port
dst_port_of (udp_layer udp) = udp.dst_port
dst_port_of other_layer = 0

-- `srcPort == port || dstPort == port`
unfoldable pub on_port : ℕ → Layer4 → Bool
on_port port l = src_port_of l == port || dst_port_of l == port

-- The outcome of a test; `none` if it reads outside the payload.
abbrev pub Test : Type 0
Test = Option Bool

-- `if (guard) { if (test) ... }`
unfoldable pub when : Bool → Test → Test
when guard test = if guard then test else some false

-- A comparison of what a read gives.
unfoldable pub reading : Option ℕ → (ℕ → Bool) → Test
reading none f = none
reading (some a) f = some (f a)

-- Both comparisons, the second after the first.
unfoldable pub both : Test → Test → Test
both none t = none
both (some false) t = some false
both (some true) t = t

abbrev pub between : ℕ → ℕ → ℕ → Bool
between low high a = leb low a && leb a high

-- Every one of `n` bytes from `i` on is 0xFF: the loop over the marker of BGP.
unfoldable pub marker : ℕ → Bytes → ℕ → Test
marker zero p i = some true
marker (suc n) p i = both (reading (at p i) (λ a. a == 255)) (marker n p (i + 1))

unfoldable pub is_smb : Bytes → ℕ → Test
is_smb p i =
    both (reading (at p i) (λ a. a == 255 || a == 254))
      (both (reading (at p (i + 1)) (λ a. a == 83)) (reading (be16 p (i + 2)) (λ a. a == 19778)))

abbrev pub Rules : Type 0
Rules = List (Test × AppProtocol)
