-- ===== src/Header/Arp.antt =====
-- src/protocol/arp.cpp and src/protocol/rarp.cpp, which decode the same layout.
use fdpi.Base.{ℕ, ◌+◌, length, drop, ltb, if◌then◌else◌}
use fdpi.Wire.{Bytes, Outcome, ok, err, truncated_header, ◌>>=◌, at, be16, copy}

pub record Arp : Type 0 where
  pub hardware_type : ℕ
  pub protocol_type : ℕ
  pub hardware_size : ℕ
  pub protocol_size : ℕ
  pub opcode : ℕ
  pub sender_mac : Bytes
  pub sender_ip : Bytes
  pub target_mac : Bytes
  pub target_ip : Bytes

-- `struct RARP` has the fields of `struct ARP`.
abbrev pub Rarp : Type 0
Rarp = Arp

unfoldable pub decode_arp : Bytes → ℕ → Outcome Arp
decode_arp data' offset =
    if ltb (length data') (offset + 28) then err truncated_header offset else do
      hardware_type ← be16 (drop offset data') 0
      protocol_type ← be16 (drop offset data') 2
      hardware_size ← at (drop offset data') 4
      protocol_size ← at (drop offset data') 5
      opcode ← be16 (drop offset data') 6
      sender_mac ← copy (drop offset data') 8 6
      sender_ip ← copy (drop offset data') 14 4
      target_mac ← copy (drop offset data') 18 6
      target_ip ← copy (drop offset data') 24 4
      ok
          (record {
            hardware_type = hardware_type;
            protocol_type = protocol_type;
            hardware_size = hardware_size;
            protocol_size = protocol_size;
            opcode = opcode;
            sender_mac = sender_mac;
            sender_ip = sender_ip;
            target_mac = target_mac;
            target_ip = target_ip;
          })
          (offset + 28)

unfoldable pub decode_rarp : Bytes → ℕ → Outcome Rarp
decode_rarp data' offset =
    if ltb (length data') (offset + 28) then err truncated_header offset else do
      hardware_type ← be16 (drop offset data') 0
      protocol_type ← be16 (drop offset data') 2
      hardware_size ← at (drop offset data') 4
      protocol_size ← at (drop offset data') 5
      opcode ← be16 (drop offset data') 6
      sender_mac ← copy (drop offset data') 8 6
      sender_ip ← copy (drop offset data') 14 4
      target_mac ← copy (drop offset data') 18 6
      target_ip ← copy (drop offset data') 24 4
      ok
          (record {
            hardware_type = hardware_type;
            protocol_type = protocol_type;
            hardware_size = hardware_size;
            protocol_size = protocol_size;
            opcode = opcode;
            sender_mac = sender_mac;
            sender_ip = sender_ip;
            target_mac = target_mac;
            target_ip = target_ip;
          })
          (offset + 28)
