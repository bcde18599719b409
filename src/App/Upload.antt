-- ===== src/App/Upload.antt =====
-- `POST /upload` from the address of the request to the store: `RealIP` and `RateLimit` of
-- internal/server/server.go, `RequireAuth`, and internal/upload/handler.go.
mod Tests
use lite_end_go.Base.{
  ℕ, ◌≤◌, ◌≡◌, refl, sym, ap, ◌∙◌, subst, inl, inr, Bool, true, false, Option, none, some, List, [],
  ◌∷◌, ◌++◌, map, length, ◌⊎◌, if◌then◌else◌, Bool-cases, Result-cases, All, Result, ok, err,
}
use lite_end_go.Strings.{Text}
use lite_end_go.Net.{IpText}
use lite_end_go.Http.{Request, Response}
use lite_end_go.Middleware.RealIp.{real_ip, client_ip}
use lite_end_go.Middleware.RateLimit.{Reply, allow, Verdict, passed, answered, throttle, rate_key}
use lite_end_go.Profile.Store.{Profile}
use lite_end_go.Profile.Service.{Codec}
use lite_end_go.Profile.Service.Coherence.{IsCoherent}
use lite_end_go.Auth.KeySet.{Library}
use lite_end_go.Auth.Resolve.{bearer_token, State, Moment, require_auth}
use lite_end_go.Auth.Resolve.Laws.{IsAuthentic, require_auth-IsAuthentic}
use lite_end_go.Upload.Links.{Service}
use lite_end_go.Upload.Process.{SavedFile}
use lite_end_go.Upload.Save.{Store, Replies}
use lite_end_go.Upload.Save.Laws.{IsBacked, NewKeys, Settled, claim, claim_of}
use lite_end_go.Upload.Handler.{Stream, Draw, Answer, refused, created, upload, upload_max_files}
use lite_end_go.Upload.Handler.Laws.{IsFrom}
use lite_end_go.Upload.Handler.Created.{upload-created}

-- The environment of the process: what its libraries answer to this request.
pub record Env : Type 0 where
  pub ip : IpText
  pub number_text : ℕ → Text
  pub trusted_hops : ℕ
  pub limiter : Text → Reply
  pub codec : Codec
  pub lib : Library
  pub detect_mime : Text → Text
  pub draws : ℕ → Draw
  pub now : ℕ
  pub replies : ℕ → Replies
  pub files : Service

-- The state that a request may change, and its answer.
pub record Handled : Type 0 where
  pub state : State
  pub store : Store
  pub answer : Answer

abbrev pub stored : State → Store × Answer → Handled
stored st (store, answer) = record { state = st; store = store; answer = answer }

module _ (env : Env) where
  abbrev pub upload_as : Store → Bool → Request → Stream → State × Result Response Profile → Handled
  unfolding upload
  upload_as store multipart r parts (st, err response) = stored st (store, refused response)
  upload_as store multipart r parts (st, ok p) = stored st (
      upload env.detect_mime true env.draws env.number_text env.now env.replies env.files store
        multipart (some p.id) (client_ip r) parts)

  abbrev pub upload_within : State → Store → Moment → Bool → Stream → Verdict → Handled
  unfolding upload_as require_auth
  upload_within st store m multipart parts (answered response) = stored st (store, refused response)
  upload_within st store m multipart parts (passed r) =
      upload_as store multipart r parts (require_auth env.codec env.lib false st m r)

  -- The request as the socket delivers it.
  unfoldable pub post_upload : State → Store → Moment → Bool → Request → Stream → Handled
  unfolding upload_within throttle
  post_upload st store m multipart r parts =
      upload_within st store m multipart parts
        (throttle env.number_text env.limiter (rate_key env.ip) (real_ip env.ip env.trusted_hops r))

  abbrev pub allowed : Request → Bool
  allowed r = (allow (env.limiter (rate_key env.ip (real_ip env.ip env.trusted_hops r)))).0

  passed-if :
      (b : Bool) (r : Request) (a : Response)
      → b ≡ true
      → (if b then passed r else answered a) ≡ passed r
  passed-if b r a e = rw e refl

  answered-if :
      (b : Bool) (r : Request) (a : Response)
      → b ≡ false
      → (a' : Response) × ((if b then passed r else answered a) ≡ answered a')
  answered-if b r a e = (a, rw e refl)

  throttle-passed :
      (r : Request)
      → (allow (env.limiter (rate_key env.ip r))).0 ≡ true
      → throttle env.number_text env.limiter (rate_key env.ip) r ≡ passed r
  unfolding throttle
  throttle-passed r e = passed-if _ r _ e

  throttle-answered :
      (r : Request)
      → (allow (env.limiter (rate_key env.ip r))).0 ≡ false
      → (a : Response) × (throttle env.number_text env.limiter (rate_key env.ip) r ≡ answered a)
  unfolding throttle
  throttle-answered r e = answered-if _ r _ e

  -- What an upload that is answered as created has done, from the state before it.
  pub record IsUploaded (st : State) (store : Store) (m : Moment) (r : Request) (parts : Stream)
      (files : List SavedFile) (h : Handled) : Type 0 where
    pub p : Profile
    pub authentic : IsAuthentic env.codec env.lib st m (bearer_token r) p h.state
    pub some_file : 1 ≤ length files
    pub few : length files ≤ upload_max_files
    pub from : All (IsFrom env.detect_mime parts) files
    pub rows :
        map claim h.store.uploads.rows ≡ map claim store.uploads.rows ++ map (claim_of p.id) files
    pub backed : IsBacked h.store

  -- What `upload-created` asks of the store before.
  abbrev pub Conditions : Store → List SavedFile → Type 0
  Conditions store files =
      IsBacked store × NewKeys store.uploads.rows files × ((j : ℕ) → Settled (env.replies j).insert)

  upload_as-created :
      (st : State) (store : Store) (m : Moment) (multipart : Bool) (r : Request) (parts : Stream)
      (files : List SavedFile) (x : State × Result Response Profile)
      → ((p : Profile) → x.1 ≡ ok p → IsAuthentic env.codec env.lib st m (bearer_token r) p x.0)
      → (upload_as store multipart r parts x).answer ≡ created files
      → Conditions store files
      → IsUploaded st store m r parts files (upload_as store multipart r parts x)
  unfolding upload_as upload
  upload_as-created st store m multipart r parts files (st', err response) shown e c = cc
  upload_as-created st store m false r parts files (st', ok p) shown e c = cc
  upload_as-created st store m true r parts files (st', ok p) shown e (is_backed, fresh, settled) =
      let result : Store × Answer =
        upload env.detect_mime true env.draws env.number_text env.now env.replies env.files store
          true (some p.id) (client_ip r) parts in
      let (some_file, few, from, rows, backed) =
        upload-created env.detect_mime true env.draws env.number_text env.now env.replies env.files
          store result.0 p.id (client_ip r) parts files (ap (λ a. (result.0, a)) e) is_backed fresh
          settled in
      record {
        p = p;
        authentic = shown p refl;
        some_file = some_file;
        few = few;
        from = from;
        rows = rows;
        backed = backed;
      }

  -- Without mock identities, with a coherent cache, from a store in which every row has its object, with keys
  -- that are new and failed inserts that did not land. An upload that is answered as created was within the
  -- budget of the address that `RealIP` took, and carried a verified bearer token; one to ten files, each
  -- accepted whole from a part of the request, are recorded as those of the row of the token's subject, after
  -- all rows before, and every row has its object. Over the budget nothing is changed, neither files nor
  -- profiles.
  pub post_upload-IsUploaded :
      (st : State) (store : Store) (m : Moment) (multipart : Bool) (r : Request) (parts : Stream)
      (files : List SavedFile)
      → IsCoherent env.codec st.world
      → Conditions store files
      → ((post_upload st store m multipart r parts).answer ≡ created files
          → (allowed r ≡ true)
            × IsUploaded st store m
                (real_ip env.ip env.trusted_hops r)
                parts
                files
                (post_upload st store m multipart r parts))
        × (allowed r ≡ false
            → (a : Response) × (post_upload st store m multipart r parts
                ≡ stored st (store, refused a)))
  unfolding post_upload upload_within
  post_upload-IsUploaded st store m multipart r parts files coherent conditions =
      (λ e. by_budget (Bool-cases (allowed r)) e, λ over. refused_as (throttle-answered r' over))
    where
      r' : Request
      r' = real_ip env.ip env.trusted_hops r

      within : Verdict → Handled
      within v = upload_within st store m multipart parts v

      verdict : Verdict
      verdict = throttle env.number_text env.limiter (rate_key env.ip) r'

      refused_as :
          (a : Response) × (verdict ≡ answered a)
          → (a : Response) × (within verdict ≡ stored st (store, refused a))
      refused_as (a, e) = (a, ap within e)

      refused-ne-created : {a : Response} → refused a ≡ created files → ⊥
      refused-ne-created h = cc

      by_budget :
          (allowed r ≡ true) ⊎ (allowed r ≡ false)
          → (within verdict).answer ≡ created files
          → (allowed r ≡ true) × IsUploaded st store m r' parts files (within verdict)
      by_budget (inl in_budget) e =
          let passes = throttle-passed r' in_budget in
          (
            in_budget,
            subst (λ v. IsUploaded st store m r' parts files (within v)) (sym passes)
                (upload_as-created st store m multipart r' parts files
                  (require_auth env.codec env.lib false st m r')
                  (λ p. require_auth-IsAuthentic env.codec env.lib st m r' p coherent)
                  (subst (λ v. (within v).answer ≡ created files) passes e) conditions),
          )
      by_budget (inr over) e =
          let (a, refusal) = throttle-answered r' over in
          absurd (refused-ne-created (subst (λ v. (within v).answer ≡ created files) refusal e))
