-- ===== src/Server/Tests.antt =====
-- The stack at concrete inputs.
use lite_end_go.Base.{arith, ◌++◌, ◌≡◌, ◌≢◌, refl, false, none, some, [], ◌∷◌}
use lite_end_go.Strings.{Text, codes}
use lite_end_go.Http.{Request, write_error}
use lite_end_go.Logger.{error_level}
use lite_end_go.Samples.{sample_request, sample_ip_text}
use lite_end_go.Middleware.RealIp.{real_ip, forwarded_client_ip}
use lite_end_go.Server.{
  client_request_id, request_id, abort, value, panic_recovered, http_request, Handler, serve,
  id_chars,
}
use lite_end_go.Server.Laws.{IsPlainId, lines_of, answer_of, served_with, serve-Logged}

abbrev fresh_id : Text
fresh_id = codes "0b0e6f0a-1"

fresh_id-IsPlainId : IsPlainId fresh_id
unfolding id_chars
fresh_id-IsPlainId = (omega arith, omega arith, refl)

-- A newline in an id is refused.
line_break : client_request_id (codes "a" ++ 10 ∷ []) ≡ false
unfolding client_request_id
line_break = refl

abbrev crash : Handler
crash id r = record { lines = []; answer = none; panic = some (value (codes "nil map")) }

abbrev a_request : Request
a_request = sample_request [] (codes "10.0.0.1:80")

not_abort : some (value (codes "nil map")) ≢ some abort
not_abort h = cc

crash_is_logged : serve sample_ip_text fresh_id 0 crash a_request ≡ record {
  lines =
      panic_recovered (codes "nil map") (codes "/graphql") fresh_id
      ∷ http_request error_level (codes "/graphql") 500 fresh_id (codes "10.0.0.1:80")
      ∷ [];
  answer = some (write_error [] 500 (codes "Internal Server Error"));
  panic = none;
}
unfolding serve real_ip forwarded_client_ip write_error
crash_is_logged = refl

serve-Logged_example :
    (serve sample_ip_text fresh_id 0 crash a_request
      ≡ served_with
          (lines_of
            (request_id fresh_id a_request)
            (real_ip sample_ip_text 0 a_request)
            (crash (request_id fresh_id a_request) (real_ip sample_ip_text 0 a_request)))
          (answer_of
            (crash (request_id fresh_id a_request) (real_ip sample_ip_text 0 a_request))
            (some (value (codes "nil map")))))
    × IsPlainId (request_id fresh_id a_request)
serve-Logged_example =
    serve-Logged sample_ip_text fresh_id 0 crash a_request fresh_id-IsPlainId not_abort
