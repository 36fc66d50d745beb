-- ===== src/App/Tftp/RoundTrip.antt =====
-- The requests of RFC 1350 and RFC 2347, and what src/protocol/tftp.cpp reads of them.
use fdpi.Base.{
  some, ℕ, zero, suc, ◌+◌, ◌≤◌, ◌<◌, ◌≡◌, refl, ap, ◌∙◌, true, false, ◌||◌, List, [], ◌∷◌, ◌++◌,
  length, drop, length-drop, length-append, ltb, ◌==◌, arith,
}
use fdpi.Wire.{Bytes, ok, ◌>>=◌, be16}
use fdpi.Wire.Reads.{drop-next, drop-past, be16-drop}
use fdpi.App.Tftp.{new_tftp, read_null_terminated, tftp_options, tftp_request, decode_tftp}

-- A text without a null.
unfoldable pub IsText : Bytes → Type 0
IsText [] = Unit
IsText (b ∷ s) = (b == 0 ≡ false) × IsText s

-- Options with names that are not empty.
unfoldable pub AreOptions : List (Bytes × Bytes) → Type 0
AreOptions [] = Unit
AreOptions ((name, value) ∷ options) =
    (length name == 0 ≡ false) × IsText name × IsText value × AreOptions options

unfoldable pub encode_pairs : List (Bytes × Bytes) → Bytes
encode_pairs [] = []
encode_pairs ((name, value) ∷ options) = name ++ 0 ∷ (value ++ 0 ∷ encode_pairs options)

unfoldable pub encode_request : ℕ → Bytes → Bytes → List (Bytes × Bytes) → Bytes
encode_request opcode filename mode options =
    0 ∷ opcode ∷ (filename ++ 0 ∷ (mode ++ 0 ∷ encode_pairs options))

read_null_terminated-text :
    (text rest : Bytes) (pos : ℕ)
    → IsText text
    → read_null_terminated (text ++ 0 ∷ rest) pos ≡ (text, pos + length text + 1)
unfolding read_null_terminated IsText
read_null_terminated-text [] rest pos h = ap (λ k. ([], k)) (omega arith)
read_null_terminated-text (b ∷ s) rest pos h =
    let tail : read_null_terminated (s ++ 0 ∷ rest) (pos + 1) ≡ (s, pos + 1 + length s + 1) =
      read_null_terminated-text s rest (pos + 1) (h.1) in
    let end : pos + 1 + length s + 1 ≡ pos + suc (length s) + 1 = omega arith in
    rw (h.0, tail, end) refl

length-encode_pairs :
    (options : List (Bytes × Bytes)) → length options ≤ length (encode_pairs options)
unfolding encode_pairs
length-encode_pairs [] = omega arith
length-encode_pairs ((name, value) ∷ options) = omega (
  arith,
  length-append name (0 ∷ (value ++ 0 ∷ encode_pairs options)),
  length-append value (0 ∷ encode_pairs options),
  length-encode_pairs options,
)

module _ (data' : Bytes) where
  -- A text in the data, and what stands behind its null.
  text_at :
      (pos : ℕ) (text rest : Bytes)
      → IsText text
      → drop pos data' ≡ text ++ 0 ∷ rest
      → read_null_terminated (drop pos data') pos ≡ (text, pos + length text + 1)
  text_at pos text rest good h =
      ap (λ s. read_null_terminated s pos) h ∙ read_null_terminated-text text rest pos good

  behind :
      (pos : ℕ) (text rest : Bytes)
      → drop pos data' ≡ text ++ 0 ∷ rest
      → drop (pos + length text + 1) data' ≡ rest
  behind pos text rest h =
      let next : pos + length text + 1 ≡ suc (pos + length text) = omega arith in
      ap (λ k. drop k data') next
      ∙ drop-next data' (pos + length text) (drop-past data' text (0 ∷ rest) pos h)

  tftp_options-encode_pairs :
      (fuel pos : ℕ) (options : List (Bytes × Bytes))
      → length options < fuel
      → AreOptions options
      → pos ≤ length data'
      → drop pos data' ≡ encode_pairs options
      → tftp_options fuel data' pos ≡ (options, length data')
  unfolding tftp_options encode_pairs AreOptions
  tftp_options-encode_pairs zero pos options enough good inside h = absurd (omega arith)
  tftp_options-encode_pairs (suc fuel) pos [] enough good inside h =
      let here : pos ≡ length data' = omega (arith, length-drop pos data', ap length h) in
      let done : ltb pos (length data') ≡ false = ground arith in rw done (ap (λ k. ([], k)) here)
  tftp_options-encode_pairs (suc fuel) pos ((name, value) ∷ options) enough good inside h =
      let size : 1 ≤ length (drop pos data') =
        omega (arith, ap length h, length-append name (0 ∷ (value ++ 0 ∷ encode_pairs options))) in
      let more : ltb pos (length data') ≡ true = ground (arith, length-drop pos data') in
      let h1 = behind pos name (value ++ 0 ∷ encode_pairs options) h in
      let h2 = behind (pos + length name + 1) value (encode_pairs options) h1 in
      let inside' : pos + length name + 1 + length value + 1 ≤ length data' = omega (
        arith,
        length-drop pos data',
        ap length h,
        length-append name (0 ∷ (value ++ 0 ∷ encode_pairs options)),
        length-append value (0 ∷ encode_pairs options),
      ) in
      rw
        (
          more,
          text_at pos name (value ++ 0 ∷ encode_pairs options) (good.1) h,
          good.0,
          text_at (pos + length name + 1) value (encode_pairs options) (good.2) h1,
          tftp_options-encode_pairs fuel (pos + length name + 1 + length value + 1) options
              (omega arith) (good.3) inside' h2,
        )
        refl

  -- `decodeTftp` reads back a read or write request: the names of the file and of the mode, and the options,
  -- up to the end of the data.
  pub decode_tftp-encode_request :
      (o opcode : ℕ) (filename mode : Bytes) (options : List (Bytes × Bytes))
      → (opcode == 1 || opcode == 2) ≡ true
      → IsText filename
      → IsText mode
      → AreOptions options
      → drop o data' ≡ encode_request opcode filename mode options
      → decode_tftp data' o
        ≡ ok
            (record (new_tftp opcode) { filename = filename; mode = mode; options = options })
            (length data')
  unfolding decode_tftp tftp_request encode_request ◌>>=◌
  decode_tftp-encode_request o opcode filename mode options code name_ok mode_ok good h =
      let options_bytes = encode_pairs options in
      let body = filename ++ 0 ∷ (mode ++ 0 ∷ options_bytes) in
      let size : length (drop o data') ≡ suc (suc (length body)) = ap length h in
      let room : ltb (length data') (o + 2) ≡ false = ground (arith, length-drop o data') in
      let first = drop-next data' o h in
      let two : suc (suc o) ≡ o + 2 = omega arith in
      let code_read : be16 data' o ≡ some opcode =
        be16-drop data' _ o 0 opcode h ∙ ap some (omega arith) in
      let h0 = rw two at (drop-next data' (suc o) first) in
      let h1 = behind (o + 2) filename (mode ++ 0 ∷ options_bytes) h0 in
      let h2 = behind (o + 2 + length filename + 1) mode options_bytes h1 in
      let inside : o + 2 + length filename + 1 + length mode + 1 ≤ length data' = omega (
        arith,
        length-drop o data',
        size,
        length-append filename (0 ∷ (mode ++ 0 ∷ options_bytes)),
        length-append mode (0 ∷ options_bytes),
      ) in
      let enough : length options < suc (length data') = omega (
        arith,
        length-encode_pairs options,
        length-drop (o + 2 + length filename + 1 + length mode + 1) data',
        ap length h2,
      ) in
      let read = tftp_options-encode_pairs (suc (length data')) _ options enough good inside h2 in
      rw
        (
          room,
          code_read,
          code,
          text_at (o + 2) filename (mode ++ 0 ∷ options_bytes) name_ok h0,
          text_at (o + 2 + length filename + 1) mode options_bytes mode_ok h1,
          read,
        )
        refl
