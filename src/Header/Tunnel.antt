-- ===== src/Header/Tunnel.antt =====
-- src/protocol/gre.cpp, gtp.cpp and mpls.cpp.
use fdpi.Base.{
  ℕ, zero, suc, ◌+◌, ◌/◌, ◌%◌, Bool, ◌||◌, Option, none, some, List, [], ◌∷◌, ◌++◌, length, drop,
  ltb, ◌==◌, if◌then◌else◌,
}
use fdpi.Wire.{Bytes, Outcome, ok, err, fault, truncated_header, ◌>>=◌, and_then, at, be16, be32}

pub record Gre : Type 0 where
  pub checksum_present : Bool
  pub key_present : Bool
  pub seq_present : Bool
  pub protocol_type : ℕ
  pub checksum : Option ℕ
  pub key : Option ℕ
  pub sequence_number : Option ℕ

-- One optional field of four bytes at `pos`, read by `field`. On an error the caller's offset is
-- still `offset`; on success the result carries the next `pos`.
unfoldable pub gre_field : Bool → (Bytes → ℕ → Option ℕ) → Bytes → ℕ → ℕ → Outcome (Option ℕ)
gre_field present field data' offset pos =
    if present
    then if ltb (length data') (pos + 4)
      then err truncated_header offset
      else (do v ← field (drop pos data') 0; ok (some v) (pos + 4))
    else ok none pos

unfoldable pub decode_gre : Bytes → ℕ → Outcome Gre
decode_gre data' offset =
    if ltb (length data') (offset + 4) then err truncated_header offset else do
      flags ← be16 (drop offset data') 0
      protocol_type ← be16 (drop offset data') 2
      and_then (gre_field (flags / 32768 % 2 == 1) be16 data' offset (offset + 4)) λ checksum pos.
          and_then (gre_field (flags / 8192 % 2 == 1) be32 data' offset pos) λ key pos'.
            and_then (gre_field (flags / 4096 % 2 == 1) be32 data' offset pos') λ number pos''.
              ok
                (record {
                  checksum_present = flags / 32768 % 2 == 1;
                  key_present = flags / 8192 % 2 == 1;
                  seq_present = flags / 4096 % 2 == 1;
                  protocol_type = protocol_type;
                  checksum = checksum;
                  key = key;
                  sequence_number = number;
                })
                pos''

pub record Gtp : Type 0 where
  pub version : ℕ
  pub protocol_type : Bool
  pub message_type : ℕ
  pub len : ℕ
  pub teid : ℕ

-- The offset has passed the eight bytes of the header when the four more are missing.
unfoldable pub decode_gtp : Bytes → ℕ → Outcome Gtp
decode_gtp data' offset =
    if ltb (length data') (offset + 8) then err truncated_header offset else do
      first ← at (drop offset data') 0
      message_type ← at (drop offset data') 1
      len ← be16 (drop offset data') 2
      teid ← be32 (drop offset data') 4
      let hdr : Gtp = record {
        version = first / 32 % 8;
        protocol_type = first / 16 % 2 == 1;
        message_type = message_type;
        len = len;
        teid = teid;
      }
      if first / 4 % 2 == 1 || first / 2 % 2 == 1 || first % 2 == 1
          then if ltb (length data') (offset + 8 + 4)
            then err truncated_header (offset + 8)
            else ok hdr (offset + 8 + 4)
          else ok hdr (offset + 8)

pub record MplsLabel : Type 0 where
  pub label : ℕ
  pub tc : ℕ
  pub bottom_of_stack : Bool
  pub ttl : ℕ

unfoldable pub mpls_label : ℕ → MplsLabel
mpls_label raw = record {
  label = raw / 4096 % 1048576;
  tc = raw / 512 % 8;
  bottom_of_stack = raw / 256 % 2 == 1;
  ttl = raw % 256;
}

-- The loop of `decodeMpls`; `stack` is `hdr.labelStack`. The offset advances with each label, so
-- that an error leaves it behind the labels that were read.
unfoldable pub mpls_loop : ℕ → Bytes → List MplsLabel → ℕ → Outcome (List MplsLabel)
mpls_loop zero data' stack offset = fault
mpls_loop (suc fuel) data' stack offset =
    let more = λ (l : MplsLabel). mpls_loop fuel data' (stack ++ l ∷ []) (offset + 4) in
    if ltb (length data') (offset + 4) then err truncated_header offset else do
      raw ← be32 (drop offset data') 0
      if raw / 256 % 2 == 1
          then ok (stack ++ mpls_label raw ∷ []) (offset + 4)
          else more (mpls_label raw)

-- Each round reads four bytes more, so the buffer's length bounds the rounds.
unfoldable pub decode_mpls : Bytes → ℕ → Outcome (List MplsLabel)
decode_mpls data' offset = mpls_loop (suc (length data')) data' [] offset
