-- ===== src/Web/Answers.antt =====
-- webserver.writeResponse and writeResponseError: the answers of the handlers, with their headers.
use postee.Prelude.{
  ℕ, String, Option, none, some, Result, ok, err, Error, ◌≡◌, ◌==◌, refl, arith, if◌then◌else◌,
}
use postee.Web.{scan_handler, tenant_handler}

-- What a client gets; `content_type` is the only header that is set.
pub record Response : Type 0 where
  pub status : ℕ
  pub content_type : String
  pub body : String

-- `marshal` stands for `json.Marshal` at a text, and `encode` for `json.Encoder` at an error. Their
-- errors leave the body empty.
module _ (marshal : String → Result String) (encode : Error → Result String) where
  abbrev text_or_empty : Result String → String
  text_or_empty (ok text) = text
  text_or_empty (err e) = ""

  abbrev body_of : Option String → String
  body_of none = ""
  body_of (some v) = text_or_empty (marshal v)

  unfoldable write_response : ℕ → Option String → Response
  write_response http_status v = record {
    status = http_status;
    content_type = "application/json; charset=UTF-8";
    body = body_of v;
  }

  unfoldable write_response_error : ℕ → Error → Response
  write_response_error http_error e = record {
    status = http_error;
    content_type = "application/json";
    body = text_or_empty (encode e);
  }

  -- The answer to a scan: an error of its body, or the empty text.
  unfoldable pub scan_response : Result String → Response
  unfolding write_response write_response_error scan_handler
  scan_response (err e) = write_response_error (scan_handler (err e)).0 e
  scan_response (ok text) = write_response (scan_handler (ok text)).0 (some "")

  unfoldable pub ping_response : Response
  unfolding write_response
  ping_response = write_response 200 (some "Postee alive!")

  abbrev body_answer : Result String → Response
  body_answer (err e) = write_response_error 500 e
  body_answer (ok text) = write_response 200 (some "")

  unfoldable pub tenant_response : Option String → Result String → Response
  unfolding write_response write_response_error
  tenant_response none body = write_response 400 (some "failed route")
  tenant_response (some route) body =
      if route == "" then write_response 400 (some "failed route") else body_answer body

  -- The status of each answer is the one that the handler is known by.
  scan-status : (body : Result String) → (scan_response body).status ≡ (scan_handler body).0
  unfolding scan_response write_response write_response_error
  scan-status (err e) = refl
  scan-status (ok text) = refl

  tenant-status :
      (route : Option String) (body : Result String)
      → (tenant_response route body).status ≡ (tenant_handler route body).0
  unfolding tenant_response tenant_handler write_response write_response_error
  tenant-status none body = refl
  tenant-status (some route) (err e) = ground arith
  tenant-status (some route) (ok text) = ground arith
