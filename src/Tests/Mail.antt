-- ===== src/Tests/Mail.antt =====
-- A mail of two segments after the reply 354.
use fdpi.Base.{ℕ, ◌≡◌, refl, true, false, some, none, List, [], ◌∷◌, ◌++◌, arith}
use fdpi.Wire.{Bytes}
use fdpi.Address.{v4}
use fdpi.Flow.{FlowId, reverse}
use fdpi.App.Mail.{Smtp, smtp_l7}
use fdpi.App.Mail.Modes.{smtp_run, IsOver, smtp_l7-mail}

abbrev server : FlowId
server = record {
  src_ip = v4 (10 ∷ 0 ∷ 0 ∷ 2 ∷ []);
  dst_ip = v4 (10 ∷ 0 ∷ 0 ∷ 1 ∷ []);
  src_port = 25;
  dst_port = 1234;
  protocol = 6;
}

-- "354 ok"
abbrev go_ahead : Bytes
go_ahead = 51 ∷ 53 ∷ 52 ∷ 32 ∷ 111 ∷ 107 ∷ 13 ∷ 10 ∷ []

abbrev reply : Smtp
reply = record {
  is_response = true;
  command = [];
  argument = [];
  reply_code = 354;
  reply_text = 111 ∷ 107 ∷ [];
}

-- "QUIT", as a line of the mail.
abbrev first_text : Bytes
first_text = 81 ∷ 85 ∷ 73 ∷ 84 ∷ 13 ∷ 10 ∷ []

abbrev last_text : Bytes
last_text = 98 ∷ 121 ∷ 101 ∷ 13 ∷ 10 ∷ 46 ∷ 13 ∷ 10 ∷ []

smtp_l7-mail_example : IsOver (reverse server) (
    smtp_run
      (smtp_l7 [] server go_ahead).0
      (reverse server)
      ((first_text ∷ []) ++ (last_text ∷ [])))
unfolding fdpi.App.Mail.smtp_state fdpi.App.Mail.or_command_mode fdpi.Base.Assoc.lookup
    fdpi.App.Mail.decode_smtp fdpi.App.Line.decode_line fdpi.App.Line.find_text
    fdpi.App.Line.starts_with fdpi.App.Mail.smtp_message fdpi.App.Mail.is_digit
    fdpi.App.Mail.ends_text
smtp_l7-mail_example =
    smtp_l7-mail [] server go_ahead reply 8 refl refl refl (first_text ∷ []) last_text (refl, tt)
      refl
