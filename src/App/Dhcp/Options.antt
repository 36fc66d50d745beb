-- ===== src/App/Dhcp/Options.antt =====
-- The options of a DHCP message as RFC 2132 lays them out, and what the loop of src/protocol/dhcp.cpp
-- reads of them.
use fdpi.Base.{
  append_assoc, append-nil, sym, if◌then◌else◌, not, ◌&&◌, Option, none, some, ℕ, zero, suc, ◌+◌,
  ◌≤◌, ◌<◌, ◌≡◌, refl, ap, ◌∙◌, Bool, true, false, List, [], ◌∷◌, ◌++◌, length, drop, length-drop,
  length-append, leb, ltb, ◌==◌, arith,
}
use fdpi.Wire.{Bytes, ok, ◌>>=◌, copy}
use fdpi.Wire.Reads.{at-drop, drop-next, drop-past, copy-drop}
use fdpi.App.Dhcp.{DhcpOption, DhcpOptions, note_option, dhcp_options}

-- A code, a length and a body each, and the End option.
unfoldable pub encode_options : List DhcpOption → Bytes → Bytes
encode_options [] tail = 255 ∷ tail
encode_options (opt ∷ opts) tail = opt.code ∷ length opt.body ∷ opt.body ++ encode_options opts tail

-- The bytes before the End option.
unfoldable pub options_size : List DhcpOption → ℕ
options_size [] = 0
options_size (opt ∷ opts) = 2 + length opt.body + options_size opts

-- The first of two that there is.
unfoldable pub or_else {ℓ} : {A : Type ℓ} → Option A → Option A → Option A
or_else none y = y
or_else (some x) y = some x

-- What the last option that tells something tells.
unfoldable pub last_of {ℓ} : {A : Type ℓ} → (DhcpOption → Option A) → List DhcpOption → Option A
last_of f [] = none
last_of f (opt ∷ opts) = or_else (last_of f opts) (f opt)

unfoldable pub first_byte : Bytes → Option ℕ
first_byte [] = none
first_byte (b ∷ bs) = some b

-- The message's type is the first byte of option 53.
unfoldable pub type_of : DhcpOption → Option ℕ
type_of opt = if opt.code == 53 then first_byte opt.body else none

-- The name of the host is the body of option 12.
unfoldable pub name_of : DhcpOption → Option Bytes
name_of opt = if opt.code == 12 && not (length opt.body == 0) then some opt.body else none

-- What is told by options after `told`.
unfoldable pub told_by : DhcpOptions → List DhcpOption → DhcpOptions
told_by told opts = record {
  message_type = or_else (last_of type_of opts) told.message_type;
  hostname = or_else (last_of name_of opts) told.hostname;
  options = told.options ++ opts;
}

-- Neither Pad nor End.
unfoldable pub HasCode : List DhcpOption → Type 0
HasCode [] = Unit
HasCode (opt ∷ opts) = (opt.code == 0 ≡ false) × (opt.code == 255 ≡ false) × HasCode opts

or_else_assoc {ℓ} :
    {A : Type ℓ} (x y z : Option A) → or_else x (or_else y z) ≡ or_else (or_else x y) z
unfolding or_else
or_else_assoc none y z = refl
or_else_assoc (some x) y z = refl

same_told :
    {type type' : Option ℕ} {name name' : Option Bytes} {opts opts' : List DhcpOption}
    → type ≡ type'
    → name ≡ name'
    → opts ≡ opts'
    → ◌≡◌ {A = DhcpOptions}
        (record { message_type = type; hostname = name; options = opts })
        (record { message_type = type'; hostname = name'; options = opts' })
same_told e f g = cc

-- One option noted after what was told.
note_option_lem :
    (told : DhcpOptions) (code : ℕ) (body : Bytes)
    → note_option told code body ≡ told_by told (record { code = code; body = body } ∷ [])
unfolding told_by note_option last_of or_else type_of name_of first_byte
note_option_lem told code [] = same_told (ground arith) (ground arith) refl
note_option_lem told code (b ∷ body) = same_told (ground arith) (ground arith) refl

told_by_twice :
    (told : DhcpOptions) (opt : DhcpOption) (opts : List DhcpOption)
    → told_by (told_by told (opt ∷ [])) opts ≡ told_by told (opt ∷ opts)
unfolding told_by last_of or_else
told_by_twice told opt opts =
    same_told (or_else_assoc (last_of type_of opts) (type_of opt) told.message_type)
      (or_else_assoc (last_of name_of opts) (name_of opt) told.hostname)
      (append_assoc told.options (opt ∷ []) opts)

told_by-note_option :
    (told : DhcpOptions) (opt : DhcpOption) (opts : List DhcpOption)
    → told_by (note_option told opt.code opt.body) opts ≡ told_by told (opt ∷ opts)
told_by-note_option told opt opts =
    ap (λ t. told_by t opts) (note_option_lem told opt.code opt.body) ∙ told_by_twice told opt opts

told_by_nothing : (told : DhcpOptions) → told ≡ told_by told []
unfolding told_by last_of or_else
told_by_nothing told = same_told refl refl (sym (append-nil told.options))

module _ (p tail : Bytes) where
  -- An option at the position, and the rest of the loop behind it.
  one_option :
      (fuel pos : ℕ) (told : DhcpOptions) (opt : DhcpOption) (rest : Bytes)
      → opt.code == 0 ≡ false
      → opt.code == 255 ≡ false
      → drop pos p ≡ opt.code ∷ length opt.body ∷ opt.body ++ rest
      → dhcp_options (suc fuel) p pos told
        ≡ dhcp_options fuel p (pos + 2 + length opt.body) (note_option told opt.code opt.body)
  unfolding dhcp_options ◌>>=◌
  one_option fuel pos told opt rest pad end h =
      let h1 = drop-next p pos h in
      let h2 = drop-next p (suc pos) h1 in
      let size = ap length h in
      let some_left : ltb pos (length p) ≡ true = ground (arith, length-drop pos p, size) in
      let two : leb (length p) (pos + 1) ≡ false = ground (arith, length-drop pos p, size) in
      let whole : ltb (length p) (pos + 2 + length opt.body) ≡ false =
        ground (arith, length-drop pos p, size, length-append opt.body rest) in
      let next : pos + 1 ≡ suc pos = omega arith in
      let body_at : suc (suc pos) ≡ pos + 2 = omega arith in
      let body : copy p (pos + 2) (length opt.body) ≡ fdpi.Base.some opt.body =
        copy-drop p opt.body rest (pos + 2) (ground arith) (rw body_at at h2) in
      rw (some_left, at-drop p pos h, end, pad, two, next, at-drop p (suc pos) h1, whole, body) refl

  -- The loop of `decodeDhcp` reads back the options before an End option, whatever else the message holds:
  -- all of them in their order, with the first byte of the last option 53 for the message's type and the
  -- last option 12 for the name of the host, where options without a body tell neither, and it
  -- stops at the End option.
  pub dhcp_options-encode_options :
      (fuel pos : ℕ) (told : DhcpOptions) (opts : List DhcpOption)
      → length opts < fuel
      → HasCode opts
      → drop pos p ≡ encode_options opts tail
      → dhcp_options fuel p pos told ≡ ok (told_by told opts) (pos + options_size opts)
  unfolding dhcp_options encode_options options_size HasCode ◌>>=◌
  dhcp_options-encode_options zero pos told opts enough codes h = absurd (omega arith)
  dhcp_options-encode_options (suc fuel) pos told [] enough codes h =
      let some_left : ltb pos (length p) ≡ true = ground (arith, length-drop pos p, ap length h) in
      rw (some_left, at-drop p pos h)
        (ap (ok told) (omega arith) ∙ ap (λ t. ok t (pos + 0)) (told_by_nothing told))
  dhcp_options-encode_options (suc fuel) pos told (opt ∷ opts) enough codes h =
      let body_at : suc (suc pos) ≡ pos + 2 = omega arith in
      let end : pos + 2 + length opt.body + options_size opts
          ≡ pos + (2 + length opt.body + options_size opts) =
        omega arith in
      let rest_at =
        drop-past p opt.body (encode_options opts tail) (pos + 2)
          (rw body_at at (drop-next p (suc pos) (drop-next p pos h))) in
      one_option fuel pos told opt (encode_options opts tail) (codes.0) (codes.1) h
      ∙ dhcp_options-encode_options fuel (pos + 2 + length opt.body)
          (note_option told opt.code opt.body) opts (omega arith) (codes.2) rest_at
      ∙ (ap (ok (told_by (note_option told opt.code opt.body) opts)) end
          ∙ ap (λ t. ok t (pos + (2 + length opt.body + options_size opts)))
              (told_by-note_option told opt opts))
