-- ===== src/Outputs/Email/Once.antt =====
-- How often an address is written to, when the mail goes straight to the servers of the recipients.
use postee.Prelude.{
  ℕ, ◌+◌, ◌≤◌, String, Bool, false, Option, none, some, List, [], ◌∷◌, ◌≡◌, arith, ◌==◌, ◌&&◌, not,
  is_some, if◌then◌else◌, inl, inr, Option-cases, Result-cases,
}
use postee.Outputs.Email.{
  Mail, Smtp, mail_by, host_of, try_servers, to_recipient, send_via_mx_servers,
}

-- The mail is for this address alone.
abbrev is_for : String → Mail → Bool
is_for address mail = elim mail.to [ rcpt ∷ [] ↦ rcpt == address | _ ↦ false ]

-- How often an address stands in a list.
abbrev pub occurrences : String → List String → ℕ
occurrences address [] = 0
occurrences address (rcpt ∷ rcpts) = (if rcpt == address then 1 else 0) + occurrences address rcpts

module _ (smtp : Smtp) where
  -- The mails to an address that a server took, among the calls made; each call was answered after
  -- those before it.
  abbrev pub taken : String → List Mail → ℕ
  taken address [] = 0
  taken address (mail ∷ log) =
      (if is_for address mail && not (is_some (smtp.send_mail log mail)) then 1 else 0)
      + taken address log

  module _ (address from subject body : String) where
    abbrev at_most : String → ℕ
    at_most rcpt = if rcpt == address then 1 else 0

    taken-try_servers :
        (rcpt : String) (mxs : List String) (log : List Mail)
        → taken address (try_servers smtp from subject body rcpt mxs log)
          ≤ at_most rcpt + taken address log
    unfolding try_servers
    taken-try_servers rcpt [] log = omega arith
    taken-try_servers rcpt (mx ∷ mxs) log =
        let mail : Mail = mail_by smtp mx from subject body rcpt in
        let later = taken-try_servers rcpt mxs (mail ∷ log) in
        elim (Option-cases (smtp.send_mail log mail)) [
          | inl e ↦ rw (e, try_servers) (ground (arith, e))
          | inr (x, e) ↦
              let same : taken address (mail ∷ log) ≡ taken address log = ground (arith, e) in
              rw (e, try_servers) (omega (arith, later, same))
        ]

    taken-to_recipient :
        (rcpt : String) (host : Option String) (log : List Mail)
        → taken address (to_recipient smtp from subject body rcpt host log)
          ≤ at_most rcpt + taken address log
    taken-to_recipient rcpt none log = omega arith
    taken-to_recipient rcpt (some host) log = elim (Result-cases (smtp.lookup_mx host)) [
      | inl (mxs, e) ↦ rw e (taken-try_servers rcpt mxs log)
      | inr (x, e) ↦ rw e (omega arith)
    ]

    -- Of the mails sent straight to the servers of the recipients, whichever the servers take, those to
    -- an address that are taken are no more than the times it stands among the recipients.
    pub taken-send_via_mx_servers :
        (rcpts : List String) (log : List Mail)
        → taken address (send_via_mx_servers smtp from subject body rcpts log)
          ≤ occurrences address rcpts + taken address log
    unfolding send_via_mx_servers
    taken-send_via_mx_servers [] log = omega arith
    taken-send_via_mx_servers (rcpt ∷ rcpts) log =
        let first = taken-to_recipient rcpt (host_of rcpt) log in
        let rest =
          taken-send_via_mx_servers rcpts
            (to_recipient smtp from subject body rcpt (host_of rcpt) log) in
        omega (arith, first, rest)
