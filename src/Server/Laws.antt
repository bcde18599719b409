-- ===== src/Server/Laws.antt =====
-- Every request that is not aborted is logged with its id, whatever its handler does. For a handler that
-- writes nothing `net/http` sends 200 afterwards, which the log does not see.
use lite_end_go.Base.{
  ℕ, ◌≤◌, ◌≡◌, ◌≢◌, refl, sym, ap, ◌∙◌, inl, inr, Bool, true, Option, none, some, List, [], ◌∷◌,
  ◌++◌, arith, leb, leb→le, Bool-cases, length, ◌&&◌,
}
use lite_end_go.Strings.{Text, codes}
use lite_end_go.Net.{IpText}
use lite_end_go.Http.{Request, Response, write_error}
use lite_end_go.Middleware.RealIp.{real_ip}
use lite_end_go.Server.{
  id_chars, client_request_id, request_id, Panic, abort, value, Line, panic_recovered, http_request,
  Served, Handler, begun_or, after_panic, recoverer, status_level, status_of, logged,
  request_logger, serve,
}

-- The recovered state of a handler that does not abort, in parts.
abbrev pub answer_of : Served → Option Panic → Option Response
answer_of s none = s.answer
answer_of s (some p) = some (begun_or s.answer (write_error [] 500 (codes "Internal Server Error")))

abbrev pub panic_lines : Text → Request → Option Panic → List Line
panic_lines id r none = []
panic_lines id r (some abort) = []
panic_lines id r (some (value v)) = panic_recovered v r.path id ∷ []

abbrev pub access_line : Text → Request → ℕ → Line
access_line id r status = http_request (status_level status) r.path status id r.remote_addr

-- What the id of a request is made of: 1 to 128 plain bytes.
abbrev pub IsPlainId : Text → Type 0
IsPlainId id = (1 ≤ length id) × (length id ≤ 128) × (id_chars id ≡ true)

and_left : (a b : Bool) → (a && b) ≡ true → a ≡ true
and_left a b h = ground arith

and_right : (a b : Bool) → (a && b) ≡ true → b ≡ true
and_right a b h = ground arith

client_request_id-IsPlainId : (id : Text) → client_request_id id ≡ true → IsPlainId id
unfolding client_request_id
client_request_id-IsPlainId id h =
    let sizes = and_left _ (id_chars id) h in
    (
      leb→le 1 (length id) (and_left _ _ sizes),
      leb→le (length id) 128 (and_right (leb 1 (length id)) _ sizes),
      and_right _ (id_chars id) h,
    )

-- The id of a request is its client's only if that is plain.
pub request_id-IsPlainId :
    (fresh : Text) (r : Request) → IsPlainId fresh → IsPlainId (request_id fresh r)
unfolding request_id
request_id-IsPlainId fresh r plain = elim (Bool-cases (client_request_id r.request_id)) [
  | inl e ↦ rw e (client_request_id-IsPlainId r.request_id e)
  | inr e ↦ rw e plain
]

-- Answered, with these lines and this answer.
abbrev pub served_with : List Line → Option Response → Served
served_with lines answer = record { lines = lines; answer = answer; panic = none }

abbrev pub lines_of : Text → Request → Served → List Line
lines_of id r s =
    (s.lines ++ panic_lines id r s.panic) ++ access_line id r (status_of (answer_of s s.panic)) ∷ []

append_nil : (ls : List Line) → ls ++ [] ≡ ls
append_nil [] = refl
append_nil (l ∷ ls) = ap (◌∷◌ l) (append_nil ls)

-- The panic that is left after recovery, and the field that holds it.
abbrev left_panic : Option Panic → Option Panic
left_panic none = none
left_panic (some abort) = some abort
left_panic (some (value v)) = none

abbrev left_of : Served → Option Panic → Option Panic
left_of s none = s.panic
left_of s (some abort) = some abort
left_of s (some (value v)) = none

logged_answer :
    (id : Text) (r : Request) (s : Served) (p : Option Panic)
    → p ≢ some abort
    → logged id r (after_panic id r s p) (left_panic p) ≡ record s {
      lines = (s.lines ++ panic_lines id r p) ++ access_line id r (status_of (answer_of s p)) ∷ [];
      answer = answer_of s p;
      panic = left_of s p;
    }
unfolding logged
logged_answer id r s none h =
    ap (λ ls. record s { lines = ls ++ access_line id r (status_of s.answer) ∷ [] })
      (sym (append_nil s.lines))
logged_answer id r s (some abort) h = absurd (h refl)
logged_answer id r s (some (value v)) h = refl

after_panic-panic :
    (id : Text) (r : Request) (s : Served) (p : Option Panic)
    → s.panic ≡ p
    → (after_panic id r s p).panic ≡ left_panic p
after_panic-panic id r s none h = h
after_panic-panic id r s (some abort) h = h
after_panic-panic id r s (some (value v)) h = refl

left_of-none : (s : Served) (p : Option Panic) → s.panic ≡ p → p ≢ some abort → left_of s p ≡ none
left_of-none s none h k = h
left_of-none s (some abort) h k = absurd (k refl)
left_of-none s (some (value v)) h k = refl

-- Whatever a handler does short of aborting, with a fresh id that is plain: its panic goes no further, and
-- leaves the answer that had begun or else one of 500; without a panic the answer is the handler's, if it has
-- begun any. Logged are the handler's lines, one of the panic if it panicked, and one of the request, under one
-- plain id, with the status of that answer, and with status 0 if there is none.
pub serve-Logged :
    (ip : IpText) (fresh : Text) (hops : ℕ) (next : Handler) (r : Request)
    → IsPlainId fresh
    → (next (request_id fresh r) (real_ip ip hops r)).panic ≢ some abort
    → (serve ip fresh hops next r
        ≡ served_with
            (lines_of
              (request_id fresh r)
              (real_ip ip hops r)
              (next (request_id fresh r) (real_ip ip hops r)))
            (answer_of
              (next (request_id fresh r) (real_ip ip hops r))
              (next (request_id fresh r) (real_ip ip hops r)).panic))
      × IsPlainId (request_id fresh r)
unfolding serve request_logger recoverer
serve-Logged ip fresh hops next r plain h = (
  ap (logged id r' (after_panic id r' s s.panic)) (after_panic-panic id r' s s.panic refl)
      ∙ logged_answer id r' s s.panic h
      ∙ ap (λ p. record (served_with (lines_of id r' s) (answer_of s s.panic)) { panic = p })
          (left_of-none s s.panic refl h),
  request_id-IsPlainId fresh r plain,
)
  where
    id : Text
    id = request_id fresh r

    r' : Request
    r' = real_ip ip hops r

    s : Served
    s = next id r'
