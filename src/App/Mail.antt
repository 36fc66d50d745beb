-- ===== src/App/Mail.antt =====
-- src/protocol/smtp.cpp and src/protocol/pop3.cpp, and their cases of `decodeL7` of src/decoder.cpp with
-- the states of the flows. `decodeL7` is called at the start of its bytes.
pub mod Modes
use fdpi.Base.{
  ℕ, ◌+◌, ◌-◌, ◌*◌, ◌≤◌, Bool, true, false, not, ◌&&◌, ◌||◌, Option, none, some, List, [], ◌∷◌,
  length, drop, leb, ◌==◌, if◌then◌else◌,
}
use fdpi.Base.Assoc.{lookup, insert}
use fdpi.Wire.{Bytes, Outcome, ok, err, fault}
use fdpi.Wire.Bounded.{Bounded}
use fdpi.Flow.{FlowId, flow_id_eq, reverse}
use fdpi.Address.{bytes_eq}
use fdpi.App.Line.{starts_with, find_text, command_of, decode_line, decode_line-Bounded}

pub record Smtp : Type 0 where
  pub is_response : Bool
  pub command : Bytes
  pub argument : Bytes
  pub reply_code : ℕ
  pub reply_text : Bytes

unfoldable pub is_digit : ℕ → Bool
is_digit c = leb 48 c && leb c 57

unfoldable pub smtp_command : Bytes → Smtp
smtp_command line = record {
  is_response = false;
  command = (command_of line).0;
  argument = (command_of line).1;
  reply_code = 0;
  reply_text = [];
}

-- Three digits and a space or a dash make a reply.
unfoldable pub smtp_message : Bytes → Smtp
smtp_message (a ∷ b ∷ c ∷ d ∷ text) =
    if is_digit a && is_digit b && is_digit c && (d == 32 || d == 45)
    then record {
      is_response = true;
      command = [];
      argument = [];
      reply_code = (a - 48) * 100 + (b - 48) * 10 + (c - 48);
      reply_text = text;
    }
    else smtp_command (a ∷ b ∷ c ∷ d ∷ text)
smtp_message line = smtp_command line

unfoldable pub decode_smtp : Bytes → ℕ → Outcome Smtp
decode_smtp data' offset = decode_line smtp_message data' offset

pub record Pop3 : Type 0 where
  pub is_response : Bool
  pub command : Bytes
  pub argument : Bytes
  pub success : Bool
  pub response_text : Bytes

-- The text behind a status, without one space.
unfoldable pub response_of : Bytes → Bytes
response_of [] = []
response_of (c ∷ s) = if c == 32 then s else c ∷ s

abbrev pub positive : Bytes
positive = 43 ∷ 79 ∷ 75 ∷ []

abbrev pub negative : Bytes
negative = 45 ∷ 69 ∷ 82 ∷ 82 ∷ []

unfoldable pub pop3_response : Bool → Bytes → Pop3
pop3_response success text = record {
  is_response = true;
  command = [];
  argument = [];
  success = success;
  response_text = response_of text;
}

unfoldable pub pop3_message : Bytes → Pop3
pop3_message line =
    if starts_with positive line
    then pop3_response true (drop 3 line)
    else if starts_with negative line
    then pop3_response false (drop 4 line)
    else record {
      is_response = false;
      command = (command_of line).0;
      argument = (command_of line).1;
      success = false;
      response_text = [];
    }

unfoldable pub decode_pop3 : Bytes → ℕ → Outcome Pop3
decode_pop3 data' offset = decode_line pop3_message data' offset

-- A text ends with a dot on a line of its own.
unfoldable pub ends_text : Bytes → Bool
ends_text s =
    starts_with (46 ∷ 13 ∷ 10 ∷ []) s
    || elim (find_text (13 ∷ 10 ∷ 46 ∷ 13 ∷ 10 ∷ []) s) [ none ↦ false | some _ ↦ true ]

-- `SmtpFlowState`
pub record SmtpFlowState : Type 0 where
  pub in_data_mode : Bool

abbrev pub SmtpStates : Type 0
SmtpStates = List (FlowId × SmtpFlowState)

-- `smtpStates[flowId]`
unfoldable pub or_command_mode : Option SmtpFlowState → SmtpFlowState
or_command_mode none = record { in_data_mode = false }
or_command_mode (some s) = s

unfoldable pub smtp_state : FlowId → SmtpStates → SmtpFlowState
smtp_state id states = or_command_mode (lookup id states)

abbrev pub data_mode : SmtpFlowState
data_mode = record { in_data_mode = true }

-- What a message means for the flows: 354 lets the other direction send its mail.
unfoldable pub note_reply : FlowId → Smtp → SmtpStates → SmtpStates
note_reply id m states =
    if m.is_response && m.reply_code == 354 then insert (reverse id) data_mode states else states

unfoldable pub smtp_l7 : SmtpStates → FlowId → Bytes → SmtpStates × Option (Smtp × ℕ)
smtp_l7 states id data' =
    if (smtp_state id states).in_data_mode
    then (
      (if ends_text data' then insert id (record { in_data_mode = false }) states else states),
      none,
    )
    else elim (decode_smtp data' 0) [
      | ok m o ↦ (note_reply id m (insert id (smtp_state id states) states), some (m, o))
      | err _ _ ↦ (insert id (smtp_state id states) states, none)
      | fault ↦ (insert id (smtp_state id states) states, none)
    ]

-- `Pop3FlowState`
pub record Pop3FlowState : Type 0 where
  pub pending_multiline : Bool
  pub in_data_mode : Bool

abbrev pub Pop3States : Type 0
Pop3States = List (FlowId × Pop3FlowState)

unfoldable pub or_idle : Option Pop3FlowState → Pop3FlowState
or_idle none = record { pending_multiline = false; in_data_mode = false }
or_idle (some s) = s

unfoldable pub pop3_state : FlowId → Pop3States → Pop3FlowState
pop3_state id states = or_idle (lookup id states)

-- RETR and TOP, and LIST and UIDL without an argument, are answered in several lines.
unfoldable pub is_multiline : Pop3 → Bool
is_multiline m =
    bytes_eq m.command (82 ∷ 69 ∷ 84 ∷ 82 ∷ [])
    || bytes_eq m.command (84 ∷ 79 ∷ 80 ∷ [])
    || (bytes_eq m.command (76 ∷ 73 ∷ 83 ∷ 84 ∷ []) || bytes_eq m.command (85 ∷ 73 ∷ 68 ∷ 76 ∷ []))
      && length m.argument == 0

unfoldable pub note_pop3 : FlowId → Pop3 → Pop3States → Pop3States
note_pop3 id m states =
    if not m.is_response
    then (if is_multiline m
        then insert (reverse id)
            (record (pop3_state (reverse id) states) { pending_multiline = true }) states
        else states)
    else if (pop3_state id states).pending_multiline
    then insert id
        (record {
          pending_multiline = false;
          in_data_mode = m.success || (pop3_state id states).in_data_mode;
        })
        states
    else states

unfoldable pub pop3_l7 : Pop3States → FlowId → Bytes → Pop3States × Option (Pop3 × ℕ)
pop3_l7 states id data' =
    if (pop3_state id states).in_data_mode
    then (
      (if ends_text data'
          then insert id (record (pop3_state id states) { in_data_mode = false }) states
          else states),
      none,
    )
    else elim (decode_pop3 data' 0) [
      | ok m o ↦ (note_pop3 id m (insert id (pop3_state id states) states), some (m, o))
      | err _ _ ↦ (insert id (pop3_state id states) states, none)
      | fault ↦ (insert id (pop3_state id states) states, none)
    ]
