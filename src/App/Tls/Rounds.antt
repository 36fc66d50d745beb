-- ===== src/App/Tls/Rounds.antt =====
-- The loops of src/protocol/tls.cpp over what a hello announces come to their ends.
use fdpi.Base.{ℕ, zero, suc, ◌+◌, ◌≤◌, ◌<◌, Bool, true, false, ◌&&◌, length, leb, ltb, ◌==◌, arith}
use fdpi.Wire.{Bytes}
use fdpi.Wire.Bounded.{at-Readable, be16-Readable, copy-Readable}
use fdpi.Wire.Ensures.{Succeeds, succeeds, Succeeds-if, Succeeds-read, Succeeds-after}
use fdpi.App.Tls.{
  Tls, server_name, alpn_names, alpn_of, max_version, supported_versions, read_extension,
  extensions,
}

module _ (data' : Bytes) where
  alpn_names-Succeeds :
      (fuel pos end : ℕ)
      → pos ≤ end
      → end ≤ length data'
      → end < pos + fuel
      → Succeeds end (alpn_names fuel data' pos end)
  unfolding alpn_names
  alpn_names-Succeeds zero pos end h e f = absurd (omega arith)
  alpn_names-Succeeds (suc fuel) pos end h e f =
      Succeeds-if (ltb pos end)
        (λ more. Succeeds-read _ (at-Readable data' pos (ground arith)) λ n.
          Succeeds-if (ltb end (pos + 1 + n)) (λ _. succeeds (ground arith))
            λ fits. Succeeds-read _ (copy-Readable _ _ _ (ground arith)) λ _.
              Succeeds-after
                (alpn_names-Succeeds fuel (pos + 1 + n) end (ground arith) e (omega arith))
                λ _ _ u. succeeds u)
        λ _. succeeds h

  max_version-Succeeds :
      (fuel pos versions_len ext_len vi max_ver : ℕ)
      → pos + ext_len ≤ length data'
      → vi ≤ ext_len
      → ext_len < vi + fuel
      → Succeeds pos (max_version fuel data' pos versions_len ext_len vi max_ver)
  unfolding max_version
  max_version-Succeeds zero pos versions_len ext_len vi max_ver h v f = absurd (omega arith)
  max_version-Succeeds (suc fuel) pos versions_len ext_len vi max_ver h v f =
      Succeeds-if (ltb (vi + 1) (1 + versions_len) && ltb (vi + 1) ext_len)
        (λ more. Succeeds-read _ (be16-Readable data' (pos + vi) (ground arith)) λ ver.
          max_version-Succeeds fuel pos versions_len ext_len (vi + 2) _ h (ground arith)
            (omega arith))
        λ _. succeeds (omega arith)

  -- One extension whose body is in the buffer is read.
  module _ (pos ext_len : ℕ) (h : pos + ext_len ≤ length data') (rec : Tls) (end : ℕ) where
    server_name-Succeeds : Succeeds end (server_name data' pos ext_len rec end)
    unfolding server_name
    server_name-Succeeds =
        Succeeds-if (leb 5 ext_len)
          (λ long. Succeeds-read _ (be16-Readable data' (pos + 3) (ground arith)) λ n.
            Succeeds-if (leb (pos + 5 + n) (pos + ext_len))
              (λ fits.
                Succeeds-read _ (copy-Readable _ _ _ (ground arith)) λ _. succeeds (omega arith))
              λ _. succeeds (omega arith))
          λ _. succeeds (omega arith)

    alpn_of-Succeeds : Succeeds end (alpn_of data' pos ext_len rec end)
    unfolding alpn_of
    alpn_of-Succeeds =
        Succeeds-if (leb 2 ext_len)
          (λ long.
            Succeeds-after
              (alpn_names-Succeeds ext_len (pos + 2) (pos + ext_len) (ground arith) h (omega arith))
              λ _ _ _. succeeds (omega arith))
          λ _. succeeds (omega arith)

    supported_versions-Succeeds :
        (client : Bool) → Succeeds end (supported_versions client data' pos ext_len rec end)
    unfolding supported_versions
    supported_versions-Succeeds true =
        Succeeds-if (leb 3 ext_len)
          (λ long. Succeeds-read _ (at-Readable data' pos (ground arith)) λ versions_len.
            Succeeds-after
              (max_version-Succeeds ext_len pos versions_len ext_len 1 0 h (ground arith)
                (omega arith))
              λ _ _ _. succeeds (omega arith))
          λ _. succeeds (omega arith)
    supported_versions-Succeeds false =
        Succeeds-if (leb 2 ext_len)
          (λ long.
            Succeeds-read _ (be16-Readable data' pos (ground arith)) λ _. succeeds (omega arith))
          λ _. succeeds (omega arith)

    read_extension-Succeeds :
        (client : Bool) (ext_type : ℕ)
        → Succeeds end (read_extension client data' ext_type pos ext_len rec end)
    unfolding read_extension
    read_extension-Succeeds client ext_type =
        Succeeds-if (ext_type == 0 && ltb 0 ext_len) (λ _. server_name-Succeeds)
          λ _.
            Succeeds-if (ext_type == 16 && ltb 0 ext_len) (λ _. alpn_of-Succeeds)
              λ _.
                Succeeds-if (ext_type == 43 && ltb 0 ext_len)
                  (λ _. supported_versions-Succeeds client) λ _. succeeds (omega arith)

  -- The loop of `decodeTls` over the extensions of a hello, which start and end inside the buffer, comes
  -- to its own end within one round more than there are bytes of extensions, whatever they are: it
  -- returns the record, with an offset that is not behind the end of the TLS record.
  pub extensions-Succeeds :
      (fuel : ℕ) (client : Bool) (pos ext_end : ℕ) (rec : Tls) (end : ℕ)
      → ext_end ≤ length data'
      → pos ≤ ext_end
      → ext_end < pos + fuel
      → Succeeds end (extensions fuel client data' pos ext_end rec end)
  unfolding extensions
  extensions-Succeeds zero client pos ext_end rec end h p f = absurd (omega arith)
  extensions-Succeeds (suc fuel) client pos ext_end rec end h p f =
      Succeeds-if (leb (pos + 4) ext_end)
        (λ more. Succeeds-read _ (be16-Readable data' pos (ground arith)) λ ext_type.
          Succeeds-read _ (be16-Readable data' (pos + 2) (ground arith)) λ ext_len.
            Succeeds-if (ltb ext_end (pos + 4 + ext_len)) (λ _. succeeds (omega arith))
              λ fits.
                Succeeds-after
                  (read_extension-Succeeds (pos + 4) ext_len (ground arith) rec end client ext_type)
                  λ rec' _ _.
                    extensions-Succeeds fuel client (pos + 4 + ext_len) ext_end rec' end h
                      (ground arith) (omega arith))
        λ _. succeeds (omega arith)
