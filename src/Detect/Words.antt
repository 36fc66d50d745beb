-- ===== src/Detect/Words.antt =====
-- The words that the tests of src/detection.cpp look for at the start of a payload, in ASCII.
use fdpi.Base.{Bool, true, false, ◌&&◌, ◌||◌, List, [], ◌∷◌, ◌==◌}
use fdpi.Wire.{Bytes}

-- `std::string_view::starts_with`.
unfoldable pub starts_with : Bytes → Bytes → Bool
starts_with sv [] = true
starts_with [] (_ ∷ _) = false
starts_with (a ∷ sv) (b ∷ word) = a == b && starts_with sv word

unfoldable pub starts_with_any : Bytes → List Bytes → Bool
starts_with_any sv [] = false
starts_with_any sv (word ∷ words) = starts_with sv word || starts_with_any sv words

-- "GET ", "POST ", "PUT ", "DELETE ", "HEAD ", "HTTP/"
abbrev pub http_starts : List Bytes
http_starts =
    (71 ∷ 69 ∷ 84 ∷ 32 ∷ [])
    ∷ (80 ∷ 79 ∷ 83 ∷ 84 ∷ 32 ∷ [])
    ∷ (80 ∷ 85 ∷ 84 ∷ 32 ∷ [])
    ∷ (68 ∷ 69 ∷ 76 ∷ 69 ∷ 84 ∷ 69 ∷ 32 ∷ [])
    ∷ (72 ∷ 69 ∷ 65 ∷ 68 ∷ 32 ∷ [])
    ∷ (72 ∷ 84 ∷ 84 ∷ 80 ∷ 47 ∷ [])
    ∷ []

-- "GET ", "POST ", "PUT ", "DELETE ", "HEAD ", "OPTIONS ", "PATCH ", "HTTP/"
abbrev pub http_starts_anywhere : List Bytes
http_starts_anywhere =
    (71 ∷ 69 ∷ 84 ∷ 32 ∷ [])
    ∷ (80 ∷ 79 ∷ 83 ∷ 84 ∷ 32 ∷ [])
    ∷ (80 ∷ 85 ∷ 84 ∷ 32 ∷ [])
    ∷ (68 ∷ 69 ∷ 76 ∷ 69 ∷ 84 ∷ 69 ∷ 32 ∷ [])
    ∷ (72 ∷ 69 ∷ 65 ∷ 68 ∷ 32 ∷ [])
    ∷ (79 ∷ 80 ∷ 84 ∷ 73 ∷ 79 ∷ 78 ∷ 83 ∷ 32 ∷ [])
    ∷ (80 ∷ 65 ∷ 84 ∷ 67 ∷ 72 ∷ 32 ∷ [])
    ∷ (72 ∷ 84 ∷ 84 ∷ 80 ∷ 47 ∷ [])
    ∷ []

-- "USER ", "PASS ", "QUIT", "SYST", "FEAT", "CWD ", "PWD", "TYPE ", "PASV", "PORT ", "LIST",
-- "RETR ", "STOR ", "DELE ", "SIZE ", "NOOP", "noop", "MKD ", "RMD ", "EPSV", "EPRT"
abbrev pub ftp_starts : List Bytes
ftp_starts =
    (85 ∷ 83 ∷ 69 ∷ 82 ∷ 32 ∷ [])
    ∷ (80 ∷ 65 ∷ 83 ∷ 83 ∷ 32 ∷ [])
    ∷ (81 ∷ 85 ∷ 73 ∷ 84 ∷ [])
    ∷ (83 ∷ 89 ∷ 83 ∷ 84 ∷ [])
    ∷ (70 ∷ 69 ∷ 65 ∷ 84 ∷ [])
    ∷ (67 ∷ 87 ∷ 68 ∷ 32 ∷ [])
    ∷ (80 ∷ 87 ∷ 68 ∷ [])
    ∷ (84 ∷ 89 ∷ 80 ∷ 69 ∷ 32 ∷ [])
    ∷ (80 ∷ 65 ∷ 83 ∷ 86 ∷ [])
    ∷ (80 ∷ 79 ∷ 82 ∷ 84 ∷ 32 ∷ [])
    ∷ (76 ∷ 73 ∷ 83 ∷ 84 ∷ [])
    ∷ (82 ∷ 69 ∷ 84 ∷ 82 ∷ 32 ∷ [])
    ∷ (83 ∷ 84 ∷ 79 ∷ 82 ∷ 32 ∷ [])
    ∷ (68 ∷ 69 ∷ 76 ∷ 69 ∷ 32 ∷ [])
    ∷ (83 ∷ 73 ∷ 90 ∷ 69 ∷ 32 ∷ [])
    ∷ (78 ∷ 79 ∷ 79 ∷ 80 ∷ [])
    ∷ (110 ∷ 111 ∷ 111 ∷ 112 ∷ [])
    ∷ (77 ∷ 75 ∷ 68 ∷ 32 ∷ [])
    ∷ (82 ∷ 77 ∷ 68 ∷ 32 ∷ [])
    ∷ (69 ∷ 80 ∷ 83 ∷ 86 ∷ [])
    ∷ (69 ∷ 80 ∷ 82 ∷ 84 ∷ [])
    ∷ []

-- "SSH-"
abbrev pub ssh_starts : List Bytes
ssh_starts = (83 ∷ 83 ∷ 72 ∷ 45 ∷ []) ∷ []

-- "220 ", "EHLO ", "HELO ", "MAIL ", "250 "
abbrev pub smtp_starts : List Bytes
smtp_starts =
    (50 ∷ 50 ∷ 48 ∷ 32 ∷ [])
    ∷ (69 ∷ 72 ∷ 76 ∷ 79 ∷ 32 ∷ [])
    ∷ (72 ∷ 69 ∷ 76 ∷ 79 ∷ 32 ∷ [])
    ∷ (77 ∷ 65 ∷ 73 ∷ 76 ∷ 32 ∷ [])
    ∷ (50 ∷ 53 ∷ 48 ∷ 32 ∷ [])
    ∷ []

-- "+OK", "-ERR", "USER", "PASS"
abbrev pub pop3_starts : List Bytes
pop3_starts =
    (43 ∷ 79 ∷ 75 ∷ [])
    ∷ (45 ∷ 69 ∷ 82 ∷ 82 ∷ [])
    ∷ (85 ∷ 83 ∷ 69 ∷ 82 ∷ [])
    ∷ (80 ∷ 65 ∷ 83 ∷ 83 ∷ [])
    ∷ []

-- "* OK", "* BYE", "* NO"
abbrev pub imap_starts : List Bytes
imap_starts =
    (42 ∷ 32 ∷ 79 ∷ 75 ∷ []) ∷ (42 ∷ 32 ∷ 66 ∷ 89 ∷ 69 ∷ []) ∷ (42 ∷ 32 ∷ 78 ∷ 79 ∷ []) ∷ []

-- "M-SEARCH", "NOTIFY", "HTTP/"
abbrev pub ssdp_starts : List Bytes
ssdp_starts =
    (77 ∷ 45 ∷ 83 ∷ 69 ∷ 65 ∷ 82 ∷ 67 ∷ 72 ∷ [])
    ∷ (78 ∷ 79 ∷ 84 ∷ 73 ∷ 70 ∷ 89 ∷ [])
    ∷ (72 ∷ 84 ∷ 84 ∷ 80 ∷ 47 ∷ [])
    ∷ []
