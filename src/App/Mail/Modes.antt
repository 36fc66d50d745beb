-- ===== src/App/Mail/Modes.antt =====
-- The data mode of SMTP in `decodeL7` of src/decoder.cpp, from the reply 354 to the end of the mail.
use fdpi.Base.{
  ℕ, ◌≡◌, refl, sym, ap, ◌∙◌, subst, true, false, ◌&&◌, Option, none, some, List, [], ◌∷◌, ◌++◌,
  ◌==◌, if_true, if_false,
}
use fdpi.Base.Assoc.{insert, lookup-insert, beq_refl}
use fdpi.Wire.{Bytes, ok}
use fdpi.Flow.{FlowId, flow_eq, flow_id_eq, reverse}
use fdpi.App.Mail.{
  Smtp, decode_smtp, ends_text, SmtpStates, SmtpFlowState, or_command_mode, smtp_state, data_mode,
  note_reply, smtp_l7,
}

unfoldable pub add_message : Option (Smtp × ℕ) → SmtpStates × List Smtp → SmtpStates × List Smtp
add_message none r = r
add_message (some (m, _)) (states, messages) = (states, m ∷ messages)

-- Texts of one flow one after another, and the messages that are decoded.
unfoldable pub smtp_run : SmtpStates → FlowId → List Bytes → SmtpStates × List Smtp
smtp_run states id [] = (states, [])
smtp_run states id (s ∷ texts) =
    add_message (smtp_l7 states id s).1 (smtp_run (smtp_l7 states id s).0 id texts)

-- Texts that do not end the mail.
abbrev pub AreOpen : List Bytes → Type 0
AreOpen [] = Unit
AreOpen (s ∷ texts) = (ends_text s ≡ false) × AreOpen texts

smtp_state-insert :
    (id : FlowId) (s : SmtpFlowState) (states : SmtpStates) → smtp_state id (insert id s states) ≡ s
unfolding smtp_state or_command_mode
smtp_state-insert id s states =
    ap or_command_mode
      (lookup-insert id id s states ∙ if_true (flow_eq id id) (some s) _ (beq_refl id))

module _ (states : SmtpStates) (id : FlowId) where
  smtp_l7-open :
      (s : Bytes)
      → (smtp_state id states).in_data_mode ≡ true
      → ends_text s ≡ false
      → smtp_l7 states id s ≡ (states, none)
  unfolding smtp_l7
  smtp_l7-open s mode e =
      if_true (smtp_state id states).in_data_mode _ _ mode
      ∙ ap (λ t. (t, none)) (if_false (ends_text s) _ states e)

  smtp_l7-end :
      (s : Bytes)
      → (smtp_state id states).in_data_mode ≡ true
      → ends_text s ≡ true
      → smtp_l7 states id s ≡ (insert id (record { in_data_mode = false }) states, none)
  unfolding smtp_l7
  smtp_l7-end s mode e =
      if_true (smtp_state id states).in_data_mode _ _ mode
      ∙ ap (λ t. (t, none)) (if_true (ends_text s) _ states e)

  smtp_run_next :
      (s : Bytes) (texts : List Bytes) (states' : SmtpStates)
      → smtp_l7 states id s ≡ (states', none)
      → smtp_run states id (s ∷ texts) ≡ smtp_run states' id texts
  unfolding smtp_run add_message
  smtp_run_next s texts states' e =
      ap {A = SmtpStates × Option (Smtp × ℕ)} (λ r. add_message r.1 (smtp_run r.0 id texts)) e

  smtp_l7-message :
      (s : Bytes) (m : Smtp) (o : ℕ)
      → (smtp_state id states).in_data_mode ≡ false
      → decode_smtp s 0 ≡ ok m o
      → smtp_l7 states id s
        ≡ (note_reply id m (insert id (smtp_state id states) states), some (m, o))
  unfolding smtp_l7
  smtp_l7-message s m o mode e =
      if_false (smtp_state id states).in_data_mode _ _ mode ∙ rw (e, smtp_l7) refl

  smtp_l7-reply :
      (reply : Bytes) (m : Smtp) (o : ℕ)
      → (smtp_state id states).in_data_mode ≡ false
      → decode_smtp reply 0 ≡ ok m o
      → (m.is_response && m.reply_code == 354) ≡ true
      → smtp_state (reverse id) (smtp_l7 states id reply).0 ≡ data_mode
  unfolding note_reply
  smtp_l7-reply reply m o mode e go_ahead =
      ap {A = SmtpStates × Option (Smtp × ℕ)} (λ r. smtp_state (reverse id) r.0)
        (smtp_l7-message reply m o mode e)
      ∙ ap (smtp_state (reverse id)) (if_true (m.is_response && m.reply_code == 354) _ _ go_ahead)
      ∙ smtp_state-insert (reverse id) data_mode _

-- What is left of a mail: no message, and the flow out of its data mode.
abbrev pub IsOver : FlowId → SmtpStates × List Smtp → Type 0
IsOver id r = (r.1 ≡ []) × ((smtp_state id r.0).in_data_mode ≡ false)

smtp_run-IsOver :
    (states : SmtpStates) (id : FlowId) (texts : List Bytes) (last : Bytes)
    → (smtp_state id states).in_data_mode ≡ true
    → AreOpen texts
    → ends_text last ≡ true
    → IsOver id (smtp_run states id (texts ++ (last ∷ [])))
unfolding smtp_run
smtp_run-IsOver states id [] last mode a e =
    subst (IsOver id) (sym (smtp_run_next states id last [] _ (smtp_l7-end states id last mode e)))
      (
        refl,
        ap (λ s. s.in_data_mode) (smtp_state-insert id (record { in_data_mode = false }) states),
      )
smtp_run-IsOver states id (s ∷ texts) last mode a e =
    subst (IsOver id)
      (sym (
        smtp_run_next states id s (texts ++ (last ∷ [])) states
          (smtp_l7-open states id s mode a.0)))
      (smtp_run-IsOver states id texts last mode a.1 e)

-- After a reply 354 in a flow that is not in data mode, the texts of the other direction are mail up
-- to the one that ends it: no message is decoded from them, and then the mode is over.
pub smtp_l7-mail :
    (states : SmtpStates) (id : FlowId) (reply : Bytes) (m : Smtp) (o : ℕ)
    → (smtp_state id states).in_data_mode ≡ false
    → decode_smtp reply 0 ≡ ok m o
    → (m.is_response && m.reply_code == 354) ≡ true
    → (texts : List Bytes) (last : Bytes) → AreOpen texts
    → ends_text last ≡ true
    → IsOver (reverse id) (smtp_run (smtp_l7 states id reply).0 (reverse id) (texts ++ (last ∷ [])))
smtp_l7-mail states id reply m o mode e go_ahead texts last a end' =
    smtp_run-IsOver (smtp_l7 states id reply).0 (reverse id) texts last
      (ap (λ s. s.in_data_mode) (smtp_l7-reply states id reply m o mode e go_ahead)) a end'
