-- ===== src/App/Tls/Bounds.antt =====
-- The reads and offsets of src/protocol/tls.cpp.
use fdpi.Base.{
  refl, zero, suc, [], ◌∷◌, ap, sym, ◌∙◌, subst, ◌≢◌, ℕ, ◌+◌, ◌%◌, ◌≤◌, ◌<◌, ◌≡◌, Bool, true, false,
  ◌&&◌, ◌||◌, some, ◌⊎◌, inl, inr, length, leb, ltb, ◌==◌, min, arith,
}
use fdpi.App.Tls.{
  ◌∷◌, drop, Tls, cipher_suites_from, server_name, alpn_names, alpn_of, max_version,
  supported_versions, read_extension, extensions, read_extensions, compression_methods,
  client_hello, server_hello, hello, handshake, tls_body, decode_tls,
}
use fdpi.Wire.{Bytes, at, be16}
use fdpi.Wire.Bounded.{
  Bounded, returns, fails, Bounded-if, Bounded-guard, Bounded-and_then, Bounded-at, Bounded-be16,
  Bounded-known, Bounded-copy, at-Readable, be16-Readable,
}

parity : (n : ℕ) → (n % 2 ≡ 0) ⊎ (n % 2 ≡ 1)
parity n = ground arith

-- Cipher suites behind a session id at `pos` which are an odd number of bytes long do not end where
-- the buffer ends.
abbrev pub SuitesFit : Bytes → ℕ → Type 0
SuitesFit data' pos =
    (s n : ℕ)
    → at data' pos ≡ some s
    → be16 data' (pos + 1 + s) ≡ some n
    → n % 2 ≡ 1
    → pos + 3 + s + n ≢ length data'

-- The list's bytes and, of an odd list, the byte behind it.
cipher_suites-Bounded :
    (data' : Bytes) (pos n : ℕ)
    → pos + n + n % 2 ≤ length data'
    → Bounded pos (length data') (cipher_suites_from data' pos n)
unfolding cipher_suites_from
cipher_suites-Bounded data' pos zero h = returns (omega arith) (omega arith)
cipher_suites-Bounded data' pos (suc zero) h =
    Bounded-be16 data' pos (omega arith) λ _. returns (omega arith) (omega arith)
cipher_suites-Bounded data' pos (suc (suc n)) h = Bounded-be16 data' pos (omega arith) λ _.
    Bounded-and_then _ _ (pos + 2) (omega arith)
      (cipher_suites-Bounded data' (pos + 2) n (omega arith)) λ _ o l u. returns (omega arith) u

module _ (data' : Bytes) where
  alpn_names-Bounded :
      (fuel pos end : ℕ)
      → pos ≤ end
      → end ≤ length data'
      → end < pos + fuel
      → Bounded pos (length data') (alpn_names fuel data' pos end)
  unfolding alpn_names
  alpn_names-Bounded zero pos end h e f = absurd (omega arith)
  alpn_names-Bounded (suc fuel) pos end h e f =
      Bounded-if (ltb pos end)
        (λ more. Bounded-at data' pos (ground arith) λ n.
          Bounded-if (ltb end (pos + 1 + n)) (λ _. returns (omega arith) (ground arith))
            λ fits. Bounded-copy _ _ _ (ground arith) λ _.
              Bounded-and_then _ _ (pos + 1 + n) (omega arith)
                (alpn_names-Bounded fuel (pos + 1 + n) end (ground arith) e (omega arith))
                λ _ o l u. returns (omega arith) u)
        λ _. returns (omega arith) (omega arith)

  max_version-Bounded :
      (fuel pos versions_len ext_len vi max_ver : ℕ)
      → pos + ext_len ≤ length data'
      → vi ≤ ext_len
      → ext_len < vi + fuel
      → Bounded pos (length data') (max_version fuel data' pos versions_len ext_len vi max_ver)
  unfolding max_version
  max_version-Bounded zero pos versions_len ext_len vi max_ver h v f = absurd (omega arith)
  max_version-Bounded (suc fuel) pos versions_len ext_len vi max_ver h v f =
      Bounded-if (ltb (vi + 1) (1 + versions_len) && ltb (vi + 1) ext_len)
        (λ more. Bounded-be16 data' (pos + vi) (ground arith) λ ver.
          max_version-Bounded fuel pos versions_len ext_len (vi + 2) _ h (ground arith)
            (omega arith))
        λ _. returns (omega arith) (omega arith)

  -- What is parsed behind the header ends at the record's end, whatever it reads before.
  module _ (lo end : ℕ) (low : lo ≤ end) (high : end ≤ length data') where
    server_name-Bounded :
        (pos ext_len : ℕ) (rec : Tls)
        → pos + ext_len ≤ length data'
        → Bounded lo (length data') (server_name data' pos ext_len rec end)
    unfolding server_name
    server_name-Bounded pos ext_len rec h =
        Bounded-if (leb 5 ext_len)
          (λ long. Bounded-be16 data' (pos + 3) (ground arith) λ n.
            Bounded-if (leb (pos + 5 + n) (pos + ext_len))
              (λ fits. Bounded-copy _ _ _ (ground arith) λ _. returns low high)
              λ _. returns low high)
          λ _. returns low high

    alpn_of-Bounded :
        (pos ext_len : ℕ) (rec : Tls)
        → lo ≤ pos
        → pos + ext_len ≤ length data'
        → Bounded lo (length data') (alpn_of data' pos ext_len rec end)
    unfolding alpn_of
    alpn_of-Bounded pos ext_len rec after h =
        Bounded-if (leb 2 ext_len)
          (λ long.
            Bounded-and_then _ _ (pos + 2) (omega arith)
              (alpn_names-Bounded ext_len (pos + 2) (pos + ext_len) (ground arith) h (omega arith))
              λ _ _ _ _. returns low high)
          λ _. returns low high

    supported_versions-Bounded :
        (client : Bool) (pos ext_len : ℕ) (rec : Tls)
        → lo ≤ pos
        → pos + ext_len ≤ length data'
        → Bounded lo (length data') (supported_versions client data' pos ext_len rec end)
    unfolding supported_versions
    supported_versions-Bounded true pos ext_len rec after h =
        Bounded-if (leb 3 ext_len)
          (λ long. Bounded-at data' pos (ground arith) λ versions_len.
            Bounded-and_then _ _ pos after
              (max_version-Bounded ext_len pos versions_len ext_len 1 0 h (ground arith)
                (omega arith))
              λ _ _ _ _. returns low high)
          λ _. returns low high
    supported_versions-Bounded false pos ext_len rec after h =
        Bounded-if (leb 2 ext_len)
          (λ long. Bounded-be16 data' pos (ground arith) λ _. returns low high)
          λ _. returns low high

    read_extension-Bounded :
        (client : Bool) (ext_type pos ext_len : ℕ) (rec : Tls)
        → lo ≤ pos
        → pos + ext_len ≤ length data'
        → Bounded lo (length data') (read_extension client data' ext_type pos ext_len rec end)
    unfolding read_extension
    read_extension-Bounded client ext_type pos ext_len rec after h =
        Bounded-if (ext_type == 0 && ltb 0 ext_len) (λ _. server_name-Bounded pos ext_len rec h)
          λ _.
            Bounded-if (ext_type == 16 && ltb 0 ext_len)
              (λ _. alpn_of-Bounded pos ext_len rec after h)
              λ _.
                Bounded-if (ext_type == 43 && ltb 0 ext_len)
                  (λ _. supported_versions-Bounded client pos ext_len rec after h)
                  λ _. returns low high

    extensions-Bounded :
        (fuel : ℕ) (client : Bool) (pos ext_end : ℕ) (rec : Tls)
        → lo ≤ pos
        → ext_end ≤ length data'
        → pos ≤ ext_end
        → ext_end < pos + fuel
        → Bounded lo (length data') (extensions fuel client data' pos ext_end rec end)
    unfolding extensions
    extensions-Bounded zero client pos ext_end rec after h p f = absurd (omega arith)
    extensions-Bounded (suc fuel) client pos ext_end rec after h p f =
        Bounded-if (leb (pos + 4) ext_end)
          (λ more. Bounded-be16 data' pos (ground arith) λ ext_type.
            Bounded-be16 data' (pos + 2) (ground arith) λ ext_len.
              Bounded-if (ltb ext_end (pos + 4 + ext_len)) (λ _. returns low high)
                λ fits.
                  Bounded-and_then _ _ lo (omega arith)
                    (read_extension-Bounded client ext_type (pos + 4) ext_len rec (omega arith)
                      (ground arith))
                    λ rec' _ _ _.
                      extensions-Bounded fuel client (pos + 4 + ext_len) ext_end rec' (omega arith)
                        h (ground arith) (omega arith))
          λ _. returns low high

    read_extensions-Bounded :
        (client : Bool) (pos : ℕ) (rec : Tls)
        → lo ≤ pos
        → Bounded lo (length data') (read_extensions client data' pos rec end)
    unfolding read_extensions
    read_extensions-Bounded client pos rec after =
        Bounded-if (ltb end (pos + 2)) (λ _. returns low high)
          λ fits. Bounded-be16 data' pos (ground arith) λ n.
            extensions-Bounded (length data') client (pos + 2) (min (pos + 2 + n) end) rec
              (omega arith) (ground arith) (ground arith) (ground arith)

    compression_methods-Bounded :
        (pos : ℕ) (rec : Tls)
        → lo ≤ pos
        → Bounded lo (length data') (compression_methods data' pos rec end)
    unfolding compression_methods
    compression_methods-Bounded pos rec after =
        Bounded-if (ltb (length data') (pos + 1)) (λ _. returns low high)
          λ fits.
            Bounded-at data' pos (ground arith)
              λ n. read_extensions-Bounded true (pos + 1 + n) rec (omega arith)

    server_hello-Bounded :
        (pos : ℕ) (rec : Tls)
        → lo ≤ pos
        → Bounded lo (length data') (server_hello data' pos rec end)
    unfolding server_hello
    server_hello-Bounded pos rec after =
        Bounded-if (ltb (length data') (pos + 2)) (λ _. returns low high)
          λ fits. Bounded-be16 data' pos (ground arith) λ suite.
            Bounded-if (ltb (length data') (pos + 3)) (λ _. returns low high)
              λ _. read_extensions-Bounded false (pos + 3) _ (omega arith)

    client_hello-Bounded :
        (pos : ℕ) (rec : Tls)
        → lo ≤ pos
        → ((n : ℕ) → be16 data' pos ≡ some n → n % 2 ≡ 1 → pos + 2 + n ≢ length data')
        → Bounded lo (length data') (client_hello data' pos rec end)
    unfolding client_hello
    client_hello-Bounded pos rec after room =
        Bounded-if (ltb (length data') (pos + 2)) (λ _. returns low high)
          λ here.
            Bounded-known (be16 data' pos) _ (be16-Readable data' pos (ground arith)) λ n known.
              Bounded-if (ltb (length data') (pos + 2 + n)) (λ _. returns low high)
                λ fits.
                  Bounded-and_then _ _ (pos + 2) (omega arith)
                    (cipher_suites-Bounded data' (pos + 2) n
                      (whole n (ground arith) (room n known)))
                    λ suites _ _ _. compression_methods-Bounded (pos + 2 + n) _ (omega arith)
      where
        whole :
            (n : ℕ)
            → pos + 2 + n ≤ length data'
            → (n % 2 ≡ 1 → pos + 2 + n ≢ length data')
            → pos + 2 + n + n % 2 ≤ length data'
        whole n fits more = elim (parity n) [
          | inl even ↦ omega arith
          | inr odd ↦ ground (arith, more odd)
        ]

    hello-Bounded :
        (client : Bool) (pos : ℕ) (rec : Tls)
        → lo ≤ pos
        → (client ≡ true → SuitesFit data' (pos + 34))
        → Bounded lo (length data') (hello client data' pos rec end)
    unfolding hello
    hello-Bounded client pos rec after room =
        Bounded-if (ltb (length data') (pos + 34) || ltb (length data') (pos + 34 + 1))
          (λ _. returns low high)
          λ here.
            Bounded-known (at data' (pos + 34)) _ (at-Readable data' (pos + 34) (ground arith))
              λ s known.
                Bounded-if client
                  (λ from_client.
                    client_hello-Bounded (pos + 34 + 1 + s) rec (omega arith)
                      λ n list odd same. room from_client s n known list odd (omega arith))
                  λ _. server_hello-Bounded (pos + 34 + 1 + s) rec (omega arith)

    handshake-Bounded :
        (pos : ℕ) (rec : Tls)
        → lo ≤ pos
        → (at data' pos ≡ some 1 → SuitesFit data' (pos + 38))
        → Bounded lo (length data') (handshake data' pos rec end)
    unfolding handshake
    handshake-Bounded pos rec after room =
        Bounded-if (ltb (length data') (pos + 4)) (λ _. returns low high)
          λ here.
            Bounded-known (at data' pos) _ (at-Readable data' pos (ground arith)) λ type known.
              Bounded-if (type == 1 || type == 2)
                (λ _. hello-Bounded (type == 1) (pos + 4) rec (omega arith) λ first.
                  let one : type ≡ 1 = ground arith in
                  let there : pos + 38 ≡ pos + 4 + 34 = omega arith in
                  subst (SuitesFit data') there (room (known ∙ ap some one)))
                λ _. returns low high

at-drop_zero : (data' : Bytes) (o : ℕ) → at (drop o data') 0 ≡ at data' o
unfolding at
at-drop_zero [] zero = refl
at-drop_zero [] (suc o) = refl
at-drop_zero (b ∷ bs) zero = refl
at-drop_zero (b ∷ bs) (suc o) = at-drop_zero bs o

-- `decodeTls` reads inside the buffer and leaves its offset inside, on every input but a ClientHello
-- whose cipher suites are an odd number of bytes long and end where the buffer ends.
pub decode_tls-Bounded :
    (data' : Bytes) (o : ℕ)
    → o ≤ length data'
    → (at data' o ≡ some 22 → at data' (o + 5) ≡ some 1 → SuitesFit data' (o + 43))
    → Bounded o (length data') (decode_tls data' o)
unfolding decode_tls tls_body
decode_tls-Bounded data' o h room = Bounded-guard data' o 5 h λ left fits.
    Bounded-known _ _ (at-Readable _ 0 (omega arith)) λ content_type known.
      Bounded-if (ltb content_type 20 || ltb 23 content_type) (λ _. fails (omega arith) h)
        λ _. Bounded-be16 _ _ (omega arith) λ version. Bounded-be16 _ _ (omega arith) λ n.
          Bounded-if (ltb (length data') (o + 5 + n)) (λ _. fails (omega arith) h)
            λ inside.
              Bounded-if (content_type == 22)
                (λ is_handshake.
                  let handshake_type : content_type ≡ 22 = ground arith in
                  let there : o + 43 ≡ o + 5 + 38 = omega arith in
                  handshake-Bounded data' o (o + 5 + n) (omega arith) (ground arith) (o + 5) _
                    (omega arith)
                    λ first.
                      subst (SuitesFit data') there (
                        room (sym (at-drop_zero data' o) ∙ (known ∙ ap some handshake_type)) first))
                λ _. returns (omega arith) (ground arith)
