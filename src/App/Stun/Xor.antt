-- ===== src/App/Stun/Xor.antt =====
-- The exclusive or of src/protocol/stun.cpp undoes itself, so an address that a server has masked is read
-- back.
use fdpi.Base.{
  ℕ, zero, suc, ◌+◌, ◌*◌, ◌/◌, ◌%◌, ◌^◌, ◌<◌, ◌≡◌, refl, some, [], ◌∷◌, ◌++◌, drop, arith,
}
use fdpi.Wire.{Bytes, ok, ◌>>=◌, at, be16, be32}
use fdpi.Address.{v4}
use fdpi.App.Stun.{Stun, xor, bytes_of, xor_mapped_address}

xor-bound : (w a b : ℕ) → xor w a b < 2 ^ w
unfolding xor
xor-bound zero a b = omega arith
xor-bound (suc w) a b = omega (arith, xor-bound w (a / 2) (b / 2))

xor-xor : (w a b : ℕ) → a < 2 ^ w → xor w (xor w a b) b ≡ a
unfolding xor
xor-xor zero a b h = omega arith
xor-xor (suc w) a b h =
    let rest = xor w (a / 2) (b / 2) in
    let half : ((a + b) % 2 + 2 * rest) / 2 ≡ rest = omega arith in
    let again : xor w rest (b / 2) ≡ a / 2 = xor-xor w (a / 2) (b / 2) (omega arith) in
    let low : ((a + b) % 2 + 2 * rest + b) % 2 ≡ a % 2 = omega arith in
    rw (half, again, low) omega arith

-- The value of a XOR-MAPPED-ADDRESS attribute of RFC 5389 for an IPv4 address and a port: both are masked
-- by the magic cookie.
unfoldable pub encode_xor_mapped : ℕ → ℕ → Bytes
encode_xor_mapped address port =
    0
    ∷ 1
    ∷ xor 16 port 8466 / 256
    ∷ xor 16 port 8466 % 256
    ∷ xor 32 address 554869826 / 16777216 % 256
    ∷ xor 32 address 554869826 / 65536 % 256
    ∷ xor 32 address 554869826 / 256 % 256
    ∷ xor 32 address 554869826 % 256
    ∷ []

unmasked :
    (a : ℕ)
    → a < 2 ^ 32
    → (a / 16777216 % 256 * 256 + a / 65536 % 256) * 65536 + (a / 256 % 256 * 256 + a % 256) ≡ a
unmasked a h = omega arith

-- `decodeStun` unmasks what a server has masked: whatever the transaction and the attributes before, the
-- address and the port of a XOR-MAPPED-ADDRESS attribute for IPv4 are those that were encoded.
pub xor_mapped_address-encode :
    (data' rest : Bytes) (pos n address port : ℕ) (hdr : Stun)
    → address < 2 ^ 32
    → port < 2 ^ 16
    → drop pos data' ≡ encode_xor_mapped address port ++ rest
    → xor_mapped_address data' pos n hdr
      ≡ ok
          (record hdr { mapped_port = some port; mapped_address = some (v4 (bytes_of address)) })
          pos
unfolding xor_mapped_address encode_xor_mapped at be16 be32 ◌>>=◌
xor_mapped_address-encode data' rest pos n address port hdr small short h =
    let masked = xor 32 address 554869826 in
    let read_address = unmasked masked (xor-bound 32 address 554869826) in
    let masked_port = xor 16 port 8466 in
    let read_port : masked_port / 256 * 256 + masked_port % 256 ≡ masked_port = omega arith in
    rw h (
      rw (read_address, read_port, xor-xor 32 address 554869826 small, xor-xor 16 port 8466 short)
        refl)
