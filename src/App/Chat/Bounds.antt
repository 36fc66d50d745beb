-- ===== src/App/Chat/Bounds.antt =====
-- The offsets of src/protocol/ftp.cpp, imap.cpp, ssh.cpp and telnet.cpp.
use fdpi.Base.{
  ℕ, zero, suc, ◌+◌, ◌≤◌, Option, none, some, [], ◌∷◌, length, drop, length-drop, leb, ltb, ◌==◌,
  ◌&&◌, arith, if-elim, Option-cases, inl, inr,
}
use fdpi.Wire.{Bytes, Outcome, ok}
use fdpi.Wire.Bounded.{Bounded, returns, fails, Bounded-if}
use fdpi.App.Line.{find_text, length-find_text, decode_line-Bounded}
use fdpi.App.Mail.{smtp_message}
use fdpi.App.Chat.{
  imap_message, accepted, decode_ftp, decode_imap, Ssh, ssh_outcome, decode_ssh, Telnet, flush,
  note_command, find_se, telnet_loop, decode_telnet,
}

accepted-Bounded :
    {A : Type 0} {o hi : ℕ} {m : Outcome (Option A)}
    → o ≤ hi
    → Bounded o hi m
    → Bounded o hi (accepted o m)
unfolding accepted
accepted-Bounded h (returns {a = none} l u) = fails (omega arith) h
accepted-Bounded h (returns {a = some a} l u) = returns l u
accepted-Bounded h (fails l u) = fails l u

data Stays (i n : ℕ) (r : Telnet × ℕ) : Type 0 where
  stays : i ≤ r.1 → r.1 ≤ i + n → Stays i n r

Stays-step :
    {i n i' n' : ℕ} {r : Telnet × ℕ} → i ≤ i' → i' + n' ≤ i + n → Stays i' n' r → Stays i n r
Stays-step l u (stays low high) = stays (omega arith) (omega arith)

-- The loop stays within what is left.
telnet_loop-Stays :
    (fuel : ℕ) (s : Bytes) (i : ℕ) (segment : Bytes) (msg : Telnet)
    → Stays i (length s) (telnet_loop fuel s i segment msg)
unfolding telnet_loop find_se
telnet_loop-Stays zero s i segment msg = stays (omega arith) (omega arith)
telnet_loop-Stays (suc fuel) [] i segment msg = stays (omega arith) (omega arith)
telnet_loop-Stays (suc fuel) (b ∷ []) i segment msg =
    if-elim (Stays i 1) (b == 255) (λ _. stays (omega arith) (omega arith))
      λ _. stays (omega arith) (omega arith)
telnet_loop-Stays (suc fuel) (b ∷ cmd ∷ s) i segment msg =
    if-elim (Stays i (suc (suc (length s)))) (b == 255)
      (λ _.
        if-elim (Stays i (suc (suc (length s)))) (cmd == 255)
          (λ _. Stays-step (omega arith) (omega arith) (telnet_loop-Stays fuel s (i + 2) _ _))
          λ _.
            if-elim (Stays i (suc (suc (length s)))) (cmd == 250)
              (λ _. elim (Option-cases (find_se s)) [
                | inl e ↦ rw e (stays (omega arith) (omega arith))
                | inr (n, e) ↦ rw e (
                    Stays-step (omega arith)
                      (omega
                        (arith, length-find_text (255 ∷ 240 ∷ []) s n e, length-drop (n + 2) s))
                      (telnet_loop-Stays fuel (drop (n + 2) s) (i + 2 + n + 2) _ _))
              ])
              λ _.
                if-elim (Stays i (suc (suc (length s)))) (leb 251 cmd && leb cmd 254)
                  (λ _.
                    elim s
                      as (λ t. Stays i (suc (suc (length t))) (elim t [
                        | [] ↦ (flush segment msg, i)
                        | option ∷ rest ↦
                            telnet_loop fuel rest (i + 3) []
                              (note_command cmd option (flush segment msg))
                      ])) [
                        | [] ↦ stays (omega arith) (omega arith)
                        | c ∷ rest ↦
                            Stays-step (omega arith) (omega arith)
                              (telnet_loop-Stays fuel rest (i + 3) _ _)
                      ])
                  λ _.
                    Stays-step (omega arith) (omega arith) (telnet_loop-Stays fuel s (i + 2) _ _))
      λ _. Stays-step (omega arith) (omega arith) (telnet_loop-Stays fuel (cmd ∷ s) (i + 1) _ _)

module _ (data' : Bytes) (o : ℕ) (h : o ≤ length data') where
  pub decode_ftp-Bounded : Bounded o (length data') (decode_ftp data' o)
  unfolding decode_ftp
  decode_ftp-Bounded = decode_line-Bounded smtp_message data' o h

  pub decode_imap-Bounded : Bounded o (length data') (decode_imap data' o)
  unfolding decode_imap
  decode_imap-Bounded = accepted-Bounded h (decode_line-Bounded imap_message data' o h)

  ssh_outcome-Bounded :
      (n : ℕ) (r : Option Ssh) → o + n ≤ length data' → Bounded o (length data') (ssh_outcome o n r)
  unfolding ssh_outcome
  ssh_outcome-Bounded n none fits = fails (omega arith) h
  ssh_outcome-Bounded n (some ssh) fits = returns (omega arith) fits

  pub decode_ssh-Bounded : Bounded o (length data') (decode_ssh data' o)
  unfolding decode_ssh
  decode_ssh-Bounded =
      Bounded-if (ltb (length data') (o + 8)) (λ _. fails (omega arith) h)
        λ _. elim (Option-cases (find_text (10 ∷ []) (drop o data'))) [
          | inl e ↦ rw e (fails (omega arith) h)
          | inr (n, e) ↦ rw e (
              ssh_outcome-Bounded (n + 1) _
                (omega (arith, length-find_text (10 ∷ []) (drop o data') n e, length-drop o data')))
        ]

  pub decode_telnet-Bounded : Bounded o (length data') (decode_telnet data' o)
  unfolding decode_telnet
  decode_telnet-Bounded =
      Bounded-if (leb (length data') o) (λ _. fails (omega arith) h)
        λ _. ended (telnet_loop-Stays (length data') (drop o data') o [] _)
    where
      ended :
          {r : Telnet × ℕ}
          → Stays o (length (drop o data')) r
          → Bounded o (length data') (ok (r.0) (r.1))
      ended (stays low high) = returns low (omega (arith, length-drop o data'))
