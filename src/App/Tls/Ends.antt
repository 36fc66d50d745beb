-- ===== src/App/Tls/Ends.antt =====
-- Where the results of src/protocol/tls.cpp end, with the records that `decodeL7` of src/decoder.cpp collects.
use fdpi.Base.{ℕ, zero, suc, ◌≤◌, Bool, true, false, length, ltb}
use fdpi.Wire.{Bytes, Outcome, ok, err, fault}
use fdpi.Wire.Ensures.{Ends, ends, stops, faults, Ends-if, Ends-after, ends_rules, ltb-eq_false}
use fdpi.App.Tls.{
  Tls, server_name, alpn_of, supported_versions, read_extension, extensions, read_extensions,
  compression_methods, client_hello, server_hello, hello, handshake, tls_body, decode_tls,
  more_records, decode_tls_records,
}

-- What is parsed behind a record's header ends at the record's end.
module _ {hi end : ℕ} (inside : end ≤ hi) (data' : Bytes) where
  server_name-Ends : (pos n : ℕ) (rec : Tls) → Ends hi (server_name data' pos n rec end)
  unfolding server_name
  server_name-Ends pos n rec = search ends_rules

  alpn_of-Ends : (pos n : ℕ) (rec : Tls) → Ends hi (alpn_of data' pos n rec end)
  unfolding alpn_of
  alpn_of-Ends pos n rec = search ends_rules

  supported_versions-Ends :
      (client : Bool) (pos n : ℕ) (rec : Tls)
      → Ends hi (supported_versions client data' pos n rec end)
  unfolding supported_versions
  supported_versions-Ends true pos n rec = search ends_rules
  supported_versions-Ends false pos n rec = search ends_rules

  read_extension-Ends :
      (client : Bool) (type pos n : ℕ) (rec : Tls)
      → Ends hi (read_extension client data' type pos n rec end)
  unfolding read_extension
  read_extension-Ends client type pos n rec =
      search (ends_rules, server_name-Ends, alpn_of-Ends, supported_versions-Ends)

  extensions-Ends :
      (fuel : ℕ) (client : Bool) (pos ext_end : ℕ) (rec : Tls)
      → Ends hi (extensions fuel client data' pos ext_end rec end)
  unfolding extensions
  extensions-Ends zero client pos ext_end rec = faults
  extensions-Ends (suc fuel) client pos ext_end rec =
      search (ends_rules, extensions-Ends fuel) depth 8

  read_extensions-Ends :
      (client : Bool) (pos : ℕ) (rec : Tls) → Ends hi (read_extensions client data' pos rec end)
  unfolding read_extensions
  read_extensions-Ends client pos rec = search (ends_rules, extensions-Ends)

  hello-Ends : (client : Bool) (pos : ℕ) (rec : Tls) → Ends hi (hello client data' pos rec end)
  unfolding hello client_hello server_hello compression_methods
  hello-Ends client pos rec = search (ends_rules, read_extensions-Ends) depth 12

  handshake-Ends : (pos : ℕ) (rec : Tls) → Ends hi (handshake data' pos rec end)
  unfolding handshake
  handshake-Ends pos rec = search (ends_rules, hello-Ends)

decode_tls-Ends : (data' : Bytes) (o : ℕ) → Ends (length data') (decode_tls data' o)
unfolding decode_tls tls_body
decode_tls-Ends data' o = search (ends_rules, ltb-eq_false, handshake-Ends) depth 12

one_more :
    {hi : ℕ} {m rest : Outcome Tls} {f : Tls → ℕ → Outcome Tls}
    → Ends hi m
    → Ends hi rest
    → ((a : Tls) (o : ℕ) → o ≤ hi → Ends hi (f a o))
    → Ends hi (elim m [ ok a o ↦ f a o | err _ _ ↦ rest | fault ↦ fault ])
one_more (ends {a = a} {o = o} u) r g = g a o u
one_more stops r g = r
one_more faults r g = faults

more_records-Ends :
    (fuel : ℕ) (data' : Bytes) (o : ℕ) (rec : Tls)
    → o ≤ length data'
    → Ends (length data') (more_records fuel data' o rec)
unfolding more_records
more_records-Ends zero data' o rec h = faults
more_records-Ends (suc fuel) data' o rec h =
    Ends-if (ltb o (length data'))
      (λ _.
        one_more (decode_tls-Ends data' o) (ends h)
          λ next o' h'. Ends-after (more_records-Ends fuel data' o' rec h') λ rec' end u. ends u)
      λ _. ends h

pub decode_tls_records-Ends :
    (data' : Bytes) (o : ℕ) → Ends (length data') (decode_tls_records data' o)
unfolding decode_tls_records
decode_tls_records-Ends data' o =
    Ends-after (decode_tls-Ends data' o) λ rec o' h. more_records-Ends (length data') data' o' rec h
