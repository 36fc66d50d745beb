-- ===== src/App/Chat.antt =====
-- Decoders of lines of text: src/protocol/ftp.cpp, imap.cpp and ssh.cpp, and the stream of telnet.cpp.
pub mod Bounds
use fdpi.Base.{
  ℕ, zero, suc, ◌+◌, ◌-◌, Bool, true, false, ◌&&◌, ◌||◌, Option, none, some, List, [], ◌∷◌, ◌++◌,
  length, take, drop, leb, ltb, ◌==◌, if◌then◌else◌,
}
use fdpi.Wire.{Bytes, Outcome, ok, err, truncated_header, malformed_packet}
use fdpi.Text.{split_at}
use fdpi.Address.{bytes_eq}
use fdpi.App.Line.{starts_with, find_text, crlf, command_of, decode_line}
use fdpi.App.Mail.{Smtp, smtp_message}

-- FTP's messages have the fields of SMTP's and are told apart in the same way.
abbrev pub Ftp : Type 0
Ftp = Smtp

unfoldable pub decode_ftp : Bytes → ℕ → Outcome Ftp
decode_ftp data' offset = decode_line smtp_message data' offset

pub record Imap : Type 0 where
  pub is_response : Bool
  pub tag : Bytes
  pub command : Bytes
  pub argument : Bytes
  pub status_code : Bytes
  pub response_text : Bytes

-- `OK`, `NO` and `BAD`.
unfoldable pub is_status : Bytes → Bool
is_status s =
    bytes_eq s (79 ∷ 75 ∷ []) || bytes_eq s (78 ∷ 79 ∷ []) || bytes_eq s (66 ∷ 65 ∷ 68 ∷ [])

-- What follows the tag: its first word and the rest.
unfoldable pub imap_rest : Bytes → Bytes × Bytes → Imap
imap_rest tag (word, rest) =
    if bytes_eq tag (42 ∷ [])
    then record {
      is_response = true;
      tag = tag;
      command = word;
      argument = rest;
      status_code = [];
      response_text = [];
    }
    else if is_status word
    then record {
      is_response = true;
      tag = tag;
      command = [];
      argument = [];
      status_code = word;
      response_text = rest;
    }
    else record {
      is_response = false;
      tag = tag;
      command = word;
      argument = rest;
      status_code = [];
      response_text = [];
    }

-- A line of one word is refused.
unfoldable pub imap_message : Bytes → Option Imap
imap_message line = elim (split_at 32 line) [
  | none ↦ none
  | some (tag, rest) ↦ some (imap_rest tag (command_of rest))
]

unfoldable pub accepted {ℓ} : {A : Type ℓ} → ℕ → Outcome (Option A) → Outcome A
accepted offset (ok none _) = err malformed_packet offset
accepted offset (ok (some a) o) = ok a o
accepted offset (err e o) = err e o
accepted offset fdpi.Wire.fault = fdpi.Wire.fault

unfoldable pub decode_imap : Bytes → ℕ → Outcome Imap
decode_imap data' offset = accepted offset (decode_line imap_message data' offset)

pub record Ssh : Type 0 where
  pub protocol_version : Bytes
  pub software_version : Bytes
  pub comments : Option Bytes

-- The text before the line feed, without a carriage return at its end.
unfoldable pub without_cr : Bytes → Bytes
without_cr [] = []
without_cr (c ∷ []) = if c == 13 then [] else c ∷ []
without_cr (c ∷ d ∷ s) = c ∷ without_cr (d ∷ s)

-- An empty comment is none.
unfoldable pub comments_of : Bytes → Option Bytes
comments_of [] = none
comments_of (c ∷ s) = some (c ∷ s)

unfoldable pub ssh_versions : Bytes → Bytes → Ssh
ssh_versions protocol_version line = elim (split_at 32 line) [
  | none ↦ record { protocol_version = protocol_version; software_version = line; comments = none }
  | some (l, r) ↦ record {
    protocol_version = protocol_version;
    software_version = l;
    comments = comments_of r;
  }
]

-- `SSH-`, the protocol's version and a dash.
unfoldable pub ssh_banner : Bytes → Option Ssh
ssh_banner line =
    if starts_with (83 ∷ 83 ∷ 72 ∷ 45 ∷ []) line
    then elim (split_at 45 (drop 4 line)) [
      | none ↦ none
      | some (protocol_version, rest) ↦ some (ssh_versions protocol_version rest)
    ]
    else none

unfoldable pub ssh_outcome : ℕ → ℕ → Option Ssh → Outcome Ssh
ssh_outcome offset consumed none = err malformed_packet offset
ssh_outcome offset consumed (some ssh) = ok ssh (offset + consumed)

unfoldable pub decode_ssh : Bytes → ℕ → Outcome Ssh
decode_ssh data' offset =
    if ltb (length data') (offset + 8)
    then err truncated_header offset
    else elim (find_text (10 ∷ []) (drop offset data')) [
      | none ↦ err truncated_header offset
      | some n ↦ ssh_outcome offset (n + 1) (ssh_banner (without_cr (take n (drop offset data'))))
    ]

pub record TelnetCommand : Type 0 where
  pub command : ℕ
  pub option : ℕ

pub record Telnet : Type 0 where
  pub segments : List Bytes
  pub commands : List TelnetCommand

-- The end of a segment of text: an empty one is not kept.
unfoldable pub flush : Bytes → Telnet → Telnet
flush [] msg = msg
flush (c ∷ s) msg = record msg { segments = msg.segments ++ ((c ∷ s) ∷ []) }

unfoldable pub note_command : ℕ → ℕ → Telnet → Telnet
note_command command option msg = record msg {
  commands = msg.commands ++ (record { command = command; option = option } ∷ []);
}

-- The position of the next `IAC SE` among what is left.
unfoldable pub find_se : Bytes → Option ℕ
find_se s = find_text (255 ∷ 240 ∷ []) s

-- A sub-negotiation records its option, and its end if that is there.
unfoldable pub note_sb : Bytes → Telnet → Telnet
note_sb [] msg = msg
note_sb (option ∷ _) msg = note_command 250 option msg

-- The loop over the bytes left at `i`, on fuel: each round takes one at least.
unfoldable pub telnet_loop : ℕ → Bytes → ℕ → Bytes → Telnet → Telnet × ℕ
telnet_loop zero s i segment msg = (flush segment msg, i)
telnet_loop (suc fuel) [] i segment msg = (flush segment msg, i)
telnet_loop (suc fuel) (b ∷ []) i segment msg =
    if b == 255 then (flush segment msg, i) else (flush (segment ++ (b ∷ [])) msg, i + 1)
telnet_loop (suc fuel) (b ∷ cmd ∷ s) i segment msg =
    if b == 255
    then (if cmd == 255
        then telnet_loop fuel s (i + 2) (segment ++ (255 ∷ [])) msg
        else if cmd == 250
        then elim (find_se s) [
          | none ↦ (note_sb s (flush segment msg), i + 2 + length s)
          | some n ↦
              telnet_loop fuel (drop (n + 2) s) (i + 2 + n + 2) []
                (note_command 240 0 (note_sb s (flush segment msg)))
        ]
        else if leb 251 cmd && leb cmd 254
        then elim s [
          | [] ↦ (flush segment msg, i)
          | option ∷ rest ↦
              telnet_loop fuel rest (i + 3) [] (note_command cmd option (flush segment msg))
        ]
        else telnet_loop fuel s (i + 2) [] (note_command cmd 0 (flush segment msg)))
    else telnet_loop fuel (cmd ∷ s) (i + 1) (segment ++ (b ∷ [])) msg

unfoldable pub decode_telnet : Bytes → ℕ → Outcome Telnet
decode_telnet data' offset =
    if leb (length data') offset
    then err truncated_header offset
    else (let (msg, end) =
          telnet_loop (length data') (drop offset data') offset []
            (record { segments = []; commands = [] }) in
        ok msg end)
