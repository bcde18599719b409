-- ===== src/Http.antt =====
-- The parts of an HTTP request and of an error response that the program reads and writes, and
-- internal/httperr/httperr.go. A header that is absent is the empty text, as `Header.Get` gives it.
use lite_end_go.Base.{ℕ, List, ◌∷◌}
use lite_end_go.Strings.{Text, codes}

pub record Request : Type 0 where
  pub path : Text
  pub remote_addr : Text
  -- `r.Header.Values("X-Forwarded-For")`: one text for each header line, in order.
  pub forwarded_for : List Text
  pub x_real_ip : Text
  pub authorization : Text
  pub x_mock_sub : Text
  pub request_id : Text

pub record Response : Type 0 where
  pub status : ℕ
  pub headers : List (Text × Text)
  pub message : Text

-- `httperr.Write`, after the headers that its caller has set. The JSON of an integer and a text
-- cannot fail, so the body is kept as its two parts.
unfoldable pub write_error : List (Text × Text) → ℕ → Text → Response
write_error headers code msg = record {
  status = code;
  headers = (codes "Content-Type", codes "application/json") ∷ headers;
  message = msg;
}
