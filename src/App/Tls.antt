-- ===== src/App/Tls.antt =====
-- `decodeTls` of src/protocol/tls.cpp. What follows the record's header is parsed only as far as it goes:
-- each early return hands back what was read until then, with the offset at the end of the record. A loop
-- whose fuel is used up is a fault, like a read outside the buffer.
pub mod Bounds
pub mod Ends
pub mod Rounds
use fdpi.Base.{
  ℕ, zero, suc, ◌+◌, ◌*◌, ◌<◌, Bool, true, false, not, ◌&&◌, ◌||◌, Option, none, some, List, [],
  ◌∷◌, length, drop, leb, ltb, ◌==◌, min, if◌then◌else◌,
}
use fdpi.Wire.{
  Bytes, Outcome, ok, err, fault, truncated_header, malformed_packet, ◌>>=◌, and_then, at, be16,
  copy,
}

pub record TlsRecord : Type 0 where
  pub content_type : ℕ
  pub version : ℕ

pub record Tls : Type 0 where
  pub content_type : ℕ
  pub version : ℕ
  pub sni : Option Bytes
  pub alpn : Option (List Bytes)
  pub tls_version : Option ℕ
  pub cipher_suites : List ℕ
  pub additional_records : List TlsRecord

unfoldable pub new_record : ℕ → ℕ → Tls
new_record content_type version = record {
  content_type = content_type;
  version = version;
  sni = none;
  alpn = none;
  tls_version = none;
  cipher_suites = [];
  additional_records = [];
}

-- `for (size_t i = 0; i < cipherSuitesLen; i += 2)`: an odd length reads one byte more.
unfoldable pub cipher_suites_from : Bytes → ℕ → ℕ → Outcome (List ℕ)
cipher_suites_from data' pos zero = ok [] pos
cipher_suites_from data' pos (suc zero) = do suite ← be16 data' pos; ok (suite ∷ []) (pos + 1)
cipher_suites_from data' pos (suc (suc n)) = do
  suite ← be16 data' pos
  and_then (cipher_suites_from data' (pos + 2) n) λ suites pos'. ok (suite ∷ suites) pos'

-- The name of a server_name extension whose body is the `ext_len` bytes at `pos`.
unfoldable pub server_name : Bytes → ℕ → ℕ → Tls → ℕ → Outcome Tls
server_name data' pos ext_len rec end =
    if leb 5 ext_len
    then (do
      name_len ← be16 data' (pos + 3)
      if leb (pos + 5 + name_len) (pos + ext_len)
          then (do name ← copy data' (pos + 5) name_len; ok (record rec { sni = some name }) end)
          else ok rec end)
    else ok rec end

-- The names of the ALPN list. Each step goes on behind the byte that it reads.
unfoldable pub alpn_names : ℕ → Bytes → ℕ → ℕ → Outcome (List Bytes)
alpn_names zero data' pos end = fault
alpn_names (suc fuel) data' pos end =
    if ltb pos end
    then (do
      proto_len ← at data' pos
      if ltb end (pos + 1 + proto_len) then ok [] (pos + 1) else (do
        name ← copy data' (pos + 1) proto_len
        and_then (alpn_names fuel data' (pos + 1 + proto_len) end)
            λ names pos'. ok (name ∷ names) pos'))
    else ok [] pos

unfoldable pub alpn_of : Bytes → ℕ → ℕ → Tls → ℕ → Outcome Tls
alpn_of data' pos ext_len rec end =
    if leb 2 ext_len
    then and_then (alpn_names ext_len data' (pos + 2) (pos + ext_len))
        (λ names _. ok (record rec { alpn = some names }) end)
    else ok rec end

-- The largest of the versions that a ClientHello lists, from index `vi` on.
unfoldable pub max_version : ℕ → Bytes → ℕ → ℕ → ℕ → ℕ → ℕ → Outcome ℕ
max_version zero data' pos versions_len ext_len vi max_ver = fault
max_version (suc fuel) data' pos versions_len ext_len vi max_ver =
    if ltb (vi + 1) (1 + versions_len) && ltb (vi + 1) ext_len
    then (do
      ver ← be16 data' (pos + vi)
      max_version fuel data' pos versions_len ext_len (vi + 2)
          (if ltb max_ver ver then ver else max_ver))
    else ok max_ver pos

unfoldable pub supported_versions : Bool → Bytes → ℕ → ℕ → Tls → ℕ → Outcome Tls
supported_versions true data' pos ext_len rec end =
    if leb 3 ext_len
    then (do
      versions_len ← at data' pos
      and_then (max_version ext_len data' pos versions_len ext_len 1 0) λ max_ver _.
          ok (if ltb 0 max_ver then record rec { tls_version = some max_ver } else rec) end)
    else ok rec end
supported_versions false data' pos ext_len rec end =
    if leb 2 ext_len
    then (do version ← be16 data' pos; ok (record rec { tls_version = some version }) end)
    else ok rec end

-- One extension; `client` tells a ClientHello from a ServerHello.
unfoldable pub read_extension : Bool → Bytes → ℕ → ℕ → ℕ → Tls → ℕ → Outcome Tls
read_extension client data' ext_type pos ext_len rec end =
    if ext_type == 0 && ltb 0 ext_len
    then server_name data' pos ext_len rec end
    else if ext_type == 16 && ltb 0 ext_len
    then alpn_of data' pos ext_len rec end
    else if ext_type == 43 && ltb 0 ext_len
    then supported_versions client data' pos ext_len rec end
    else ok rec end

-- The loop over the extensions, on fuel: each takes at least four bytes.
unfoldable pub extensions : ℕ → Bool → Bytes → ℕ → ℕ → Tls → ℕ → Outcome Tls
extensions zero client data' pos ext_end rec end = fault
extensions (suc fuel) client data' pos ext_end rec end =
    if leb (pos + 4) ext_end
    then (do
      ext_type ← be16 data' pos
      ext_len ← be16 data' (pos + 2)
      if ltb ext_end (pos + 4 + ext_len)
          then ok rec end
          else and_then (read_extension client data' ext_type (pos + 4) ext_len rec end)
              (λ rec' _. extensions fuel client data' (pos + 4 + ext_len) ext_end rec' end))
    else ok rec end

unfoldable pub read_extensions : Bool → Bytes → ℕ → Tls → ℕ → Outcome Tls
read_extensions client data' pos rec record_end =
    if ltb record_end (pos + 2) then ok rec record_end else do
      ext_total_len ← be16 data' pos
      extensions (length data') client data' (pos + 2) (min (pos + 2 + ext_total_len) record_end)
          rec record_end

-- Behind the cipher suites of a ClientHello: the compression methods and the extensions.
unfoldable pub compression_methods : Bytes → ℕ → Tls → ℕ → Outcome Tls
compression_methods data' pos rec record_end =
    if ltb (length data') (pos + 1)
    then ok rec record_end
    else do comp_len ← at data' pos; read_extensions true data' (pos + 1 + comp_len) rec record_end

unfoldable pub client_hello : Bytes → ℕ → Tls → ℕ → Outcome Tls
client_hello data' pos rec record_end =
    if ltb (length data') (pos + 2) then ok rec record_end else do
      cipher_suites_len ← be16 data' pos
      if ltb (length data') (pos + 2 + cipher_suites_len)
          then ok rec record_end
          else and_then (cipher_suites_from data' (pos + 2) cipher_suites_len) (λ suites _.
            compression_methods data' (pos + 2 + cipher_suites_len)
              (record rec { cipher_suites = suites }) record_end)

unfoldable pub server_hello : Bytes → ℕ → Tls → ℕ → Outcome Tls
server_hello data' pos rec record_end =
    if ltb (length data') (pos + 2) then ok rec record_end else do
      suite ← be16 data' pos
      if ltb (length data') (pos + 3)
          then ok (record rec { cipher_suites = suite ∷ [] }) record_end
          else read_extensions false data' (pos + 3) (record rec { cipher_suites = suite ∷ [] })
              record_end

-- The version, the random bytes and the session id stand before what the two hellos differ in.
unfoldable pub hello : Bool → Bytes → ℕ → Tls → ℕ → Outcome Tls
hello client data' pos rec record_end =
    if ltb (length data') (pos + 34) || ltb (length data') (pos + 34 + 1)
    then ok rec record_end
    else (do
      session_id_len ← at data' (pos + 34)
      if client
          then client_hello data' (pos + 34 + 1 + session_id_len) rec record_end
          else server_hello data' (pos + 34 + 1 + session_id_len) rec record_end)

unfoldable pub handshake : Bytes → ℕ → Tls → ℕ → Outcome Tls
handshake data' hs_offset rec record_end =
    if ltb (length data') (hs_offset + 4) then ok rec record_end else do
      hs_type ← at data' hs_offset
      if hs_type == 1 || hs_type == 2
          then hello (hs_type == 1) data' (hs_offset + 4) rec record_end
          else ok rec record_end

unfoldable pub tls_body : Bytes → ℕ → ℕ → Outcome Tls
tls_body data' offset content_type = do
  version ← be16 (drop offset data') 1
  record_len ← be16 (drop offset data') 3
  if ltb (length data') (offset + 5 + record_len)
      then err truncated_header offset
      else if content_type == 22
      then handshake data' (offset + 5) (new_record content_type version) (offset + 5 + record_len)
      else ok (new_record content_type version) (offset + 5 + record_len)

unfoldable pub decode_tls : Bytes → ℕ → Outcome Tls
decode_tls data' offset =
    if ltb (length data') (offset + 5) then err truncated_header offset else do
      content_type ← at (drop offset data') 0
      if ltb content_type 20 || ltb 23 content_type
          then err malformed_packet offset
          else tls_body data' offset content_type

-- The records behind the first one, as `decodeL7` of src/decoder.cpp collects them: each is at least five
-- bytes long.
unfoldable pub more_records : ℕ → Bytes → ℕ → Tls → Outcome Tls
more_records zero data' offset rec = fault
more_records (suc fuel) data' offset rec =
    if ltb offset (length data')
    then elim (decode_tls data' offset) [
      | ok next offset' ↦ and_then (more_records fuel data' offset' rec) λ rec' end.
          ok
            (record rec' {
              additional_records =
                  record { content_type = next.content_type; version = next.version }
                  ∷ rec'.additional_records;
            })
            end
      | err _ _ ↦ ok rec offset
      | fault ↦ fault
    ]
    else ok rec offset

unfoldable pub decode_tls_records : Bytes → ℕ → Outcome Tls
decode_tls_records data' offset =
    and_then (decode_tls data' offset) λ rec offset'. more_records (length data') data' offset' rec
