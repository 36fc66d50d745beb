-- ===== src/App/Dhcp.antt =====
-- `decodeDhcp` of src/protocol/dhcp.cpp and `decodeDhcpv6` of src/protocol/dhcpv6.cpp. The options are read
-- at the pointer, so `data.size() - offset` is what the pointer has left.
pub mod Bounds
pub mod Options
use fdpi.Base.{
  ℕ, zero, suc, ◌+◌, ◌*◌, ◌^◌, ◌-◌, Bool, not, ◌&&◌, ◌||◌, Option, none, some, List, [], ◌∷◌, ◌++◌,
  length, drop, leb, ltb, ◌==◌, if◌then◌else◌,
}
use fdpi.Wire.{
  Bytes, Outcome, ok, err, truncated_header, malformed_packet, ◌>>=◌, and_then, at, be16, be32,
  copy,
}

pub record DhcpOption : Type 0 where
  pub code : ℕ
  pub body : Bytes

-- What the options tell of a message.
pub record DhcpOptions : Type 0 where
  pub message_type : Option ℕ
  pub hostname : Option Bytes
  pub options : List DhcpOption

pub record Dhcp : Type 0 where
  pub op : ℕ
  pub htype : ℕ
  pub hlen : ℕ
  pub hops : ℕ
  pub xid : ℕ
  pub secs : ℕ
  pub flags : ℕ
  pub ciaddr : Bytes
  pub yiaddr : Bytes
  pub siaddr : Bytes
  pub giaddr : Bytes
  pub chaddr : Bytes
  pub told : DhcpOptions

abbrev pub no_options : DhcpOptions
no_options = record { message_type = none; hostname = none; options = [] }

-- Option 53 is the message's type, and 12 the name of the host; a later option replaces an earlier one.
unfoldable pub note_option : DhcpOptions → ℕ → Bytes → DhcpOptions
note_option told code [] = record told {
  options = told.options ++ (record { code = code; body = [] } ∷ []);
}
note_option told code (b ∷ body) = record {
  message_type = if code == 53 then some b else told.message_type;
  hostname = if code == 12 then some (b ∷ body) else told.hostname;
  options = told.options ++ (record { code = code; body = b ∷ body } ∷ []);
}

-- The loop over the options, on fuel: each round takes a byte at least.
unfoldable pub dhcp_options : ℕ → Bytes → ℕ → DhcpOptions → Outcome DhcpOptions
dhcp_options zero p opt_offset told = ok told opt_offset
dhcp_options (suc fuel) p opt_offset told =
    if ltb opt_offset (length p)
    then (do
      code ← at p opt_offset
      if code == 255
          then ok told opt_offset
          else if code == 0
          then dhcp_options fuel p (opt_offset + 1) told
          else if leb (length p) (opt_offset + 1)
          then ok told opt_offset
          else (do
            len ← at p (opt_offset + 1)
            if ltb (length p) (opt_offset + 2 + len) then ok told opt_offset else (do
              body ← copy p (opt_offset + 2) len
              dhcp_options fuel p (opt_offset + 2 + len) (note_option told code body))))
    else ok told opt_offset

-- The fields that stand at fixed places.
unfoldable pub read_dhcp : Bytes → DhcpOptions → ℕ → Outcome Dhcp
read_dhcp p told offset = do
  op ← at p 0
  htype ← at p 1
  hlen ← at p 2
  hops ← at p 3
  xid ← be32 p 4
  secs ← be16 p 8
  flags ← be16 p 10
  ciaddr ← copy p 12 4
  yiaddr ← copy p 16 4
  siaddr ← copy p 20 4
  giaddr ← copy p 24 4
  chaddr ← copy p 28 6
  ok
      (record {
        op = op;
        htype = htype;
        hlen = hlen;
        hops = hops;
        xid = xid;
        secs = secs;
        flags = flags;
        ciaddr = ciaddr;
        yiaddr = yiaddr;
        siaddr = siaddr;
        giaddr = giaddr;
        chaddr = chaddr;
        told = told;
      })
      offset

-- The magic cookie `63 82 53 63`. The whole rest of the data is consumed.
unfoldable pub decode_dhcp : Bytes → ℕ → Outcome Dhcp
decode_dhcp data' offset =
    if ltb (length data') (offset + 240) then err truncated_header offset else do
      cookie ← be32 (drop offset data') 236
      if not (cookie == 1669485411)
          then err malformed_packet offset
          else and_then (dhcp_options (length data') (drop offset data') 240 no_options)
              (λ told _. read_dhcp (drop offset data') told (length data'))

pub record Dhcpv6Options : Type 0 where
  pub client_fqdn : Option Bytes
  pub options : List DhcpOption

pub record Dhcpv6 : Type 0 where
  pub message_type : ℕ
  pub transaction_id : ℕ
  pub told : Dhcpv6Options

-- Option 39 is the name of the client, behind a byte of flags.
unfoldable pub note_option6 : Dhcpv6Options → ℕ → Bytes → Dhcpv6Options
note_option6 told code body = record {
  client_fqdn = if code == 39 && ltb 1 (length body) then some (drop 1 body) else told.client_fqdn;
  options = told.options ++ (record { code = code; body = body } ∷ []);
}

unfoldable pub dhcpv6_options : ℕ → Bytes → ℕ → Dhcpv6Options → Outcome Dhcpv6Options
dhcpv6_options zero p opt_offset told = ok told opt_offset
dhcpv6_options (suc fuel) p opt_offset told =
    if leb (opt_offset + 4) (length p)
    then (do
      opt_type ← be16 p opt_offset
      opt_len ← be16 p (opt_offset + 2)
      if ltb (length p) (opt_offset + 4 + opt_len) then ok told opt_offset else (do
        body ← copy p (opt_offset + 4) opt_len
        dhcpv6_options fuel p (opt_offset + 4 + opt_len) (note_option6 told opt_type body)))
    else ok told opt_offset

abbrev pub no_options6 : Dhcpv6Options
no_options6 = record { client_fqdn = none; options = [] }

unfoldable pub decode_dhcpv6 : Bytes → ℕ → Outcome Dhcpv6
decode_dhcpv6 data' offset =
    if ltb (length data') (offset + 4) then err truncated_header offset else do
      message_type ← at (drop offset data') 0
      high ← at (drop offset data') 1
      low ← be16 (drop offset data') 2
      if message_type == 0
          then err malformed_packet offset
          else and_then (dhcpv6_options (length data') (drop offset data') 4 no_options6)
              (λ told opt_offset.
                ok
                  (record {
                    message_type = message_type;
                    transaction_id = high * 65536 + low;
                    told = told;
                  })
                  (offset + opt_offset))
