-- ===== src/Outputs/Email.antt =====
-- outputs/email.go: a message as mail, through a server or straight to the servers of the recipients.
pub mod Once
use Prim.Native.Char.{code}
use Prim.Native.String
use Prim.Native.String.{◌++◌}
use postee.Prelude.{
  String, Option, none, some, List, [], ◌∷◌, Result, ok, err, Error, if◌then◌else◌, value_of, eqb,
}
use postee.Prelude.Text.{join, itoa}
use postee.Db.Aggregator.{Content}
use postee.Outputs.Records.{EmailOutput}
use postee.Outputs.Recipients.{get_handled_recipients}

-- One call of `smtp.SendMail`: the server, whether it authenticates, sender, recipients and message.
pub record Mail : Type 0 where
  pub server : String
  pub user : Option String
  pub from : String
  pub to : List String
  pub message : String

-- SMTP answers a mail after the calls before it, the last one first.
pub record Smtp : Type 0 where
  pub send_mail : List Mail → Mail → Option Error
  pub lookup_mx : String → Result (List String)

abbrev text_of : String → String → String → String → String
text_of to from subject body =
    "To: "
    ++ (to
        ++ ("\r\nFrom: "
            ++ (from
                ++ ("\r\nSubject: "
                    ++ (subject
                        ++ ("\r\nContent-Type: text/html; charset=UTF-8\r\n\r\n"
                            ++ (body ++ "\r\n")))))))

-- rcpt[at+1:] behind the last @, if there is one.
unfoldable pub host_of : String → Option String
host_of String.[] = none
host_of (String.◌∷◌ c s) =
    let rest = host_of s in
    elim rest [ none ↦ (if eqb (code c) b'@' then some s else none) | some host ↦ some host ]

module _ (smtp : Smtp) where
  abbrev mail_by : (mx from subject body rcpt : String) → Mail
  mail_by mx from subject body rcpt = record {
    server = mx ++ ":25";
    user = none;
    from = from;
    to = rcpt ∷ [];
    message = text_of rcpt from subject body;
  }

  -- The loop over the mail servers of a recipient: it ends with the first mail that is taken.
  unfoldable pub try_servers :
      (from subject body rcpt : String) → List String → List Mail → List Mail
  try_servers from subject body rcpt [] log = log
  try_servers from subject body rcpt (mx ∷ mxs) log =
      let mail : Mail = mail_by mx from subject body rcpt in
      let later = try_servers from subject body rcpt mxs (mail ∷ log) in
      elim (smtp.send_mail log mail) [ none ↦ mail ∷ log | some e ↦ later ]

  abbrev servers_found :
      (from subject body rcpt : String) → Result (List String) → List Mail → List Mail
  servers_found from subject body rcpt (err e) log = log
  servers_found from subject body rcpt (ok mxs) log = try_servers from subject body rcpt mxs log

  abbrev to_recipient : (from subject body rcpt : String) → Option String → List Mail → List Mail
  to_recipient from subject body rcpt none log = log
  to_recipient from subject body rcpt (some host) log =
      servers_found from subject body rcpt (smtp.lookup_mx host) log

  unfoldable pub send_via_mx_servers :
      (from subject body : String) → List String → List Mail → List Mail
  unfolding try_servers host_of
  send_via_mx_servers from subject body [] log = log
  send_via_mx_servers from subject body (rcpt ∷ rcpts) log =
      send_via_mx_servers from subject body rcpts
        (to_recipient from subject body rcpt (host_of rcpt) log)

  -- The error of Send, and the calls made.
  abbrev send_to : EmailOutput → Content → List String → List Mail → Option Error × List Mail
  send_to email content [] log = (some "there is no recipient", log)
  send_to email content (r ∷ rs) log =
      let mail : Mail = record {
        server = email.host ++ (":" ++ itoa email.port);
        user = some email.user;
        from = email.sender;
        to = r ∷ rs;
        message =
            text_of (join (r ∷ rs) ",") email.sender (value_of "title" content)
              (value_of "description" content);
      } in
      if email.use_mx
      then (
        none,
        send_via_mx_servers email.sender (value_of "title" content) (value_of "description" content)
            (r ∷ rs) log,
      )
      else (smtp.send_mail log mail, mail ∷ log)

  unfoldable pub send_email : EmailOutput → Content → List Mail → Option Error × List Mail
  unfolding send_via_mx_servers
  send_email email content log =
      send_to email content (get_handled_recipients email.recipients content) log
