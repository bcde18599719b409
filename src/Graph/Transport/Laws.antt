-- ===== src/Graph/Transport/Laws.antt =====
-- The size of the queries that are let through, and the user of a WebSocket's operations.
use lite_end_go.Base.{
  ℕ, suc, ◌+◌, ◌≤◌, ◌≡◌, refl, ◌∙◌, ap, inl, inr, false, Option, none, some, List, [], ◌∷◌, ◌++◌,
  arith, ltb, ltb-false→le, Bool-cases, Option-cases, length, length-append, Result, ok, err,
}
use lite_end_go.Strings.{Text}
use lite_end_go.Profile.Store.{Profile}
use lite_end_go.Profile.Service.{Codec}
use lite_end_go.Profile.Service.Coherence.{IsCoherent}
use lite_end_go.Auth.KeySet.{Library}
use lite_end_go.Auth.Resolve.{Resolved, State, Moment, resolve, resolve_token}
use lite_end_go.Auth.Resolve.Laws.{IsAuthentic, resolve_token-Shows}
use lite_end_go.Graph.Avatar.{GraphError}
use lite_end_go.Graph.Transport.{
  Selection, Selections, field, inline_fragment, fragment_spread, no_more, select, Document,
  count_selections, count_selection, count_all, count_fields, query_shape_limit, run_as,
  refresh_websocket_user,
}

-- The names of the fields, in the order in which a reader of the query meets them.
unfoldable mutual
  pub names : Selections → List Text
  names no_more = []
  names (select s rest) = names_of s ++ names rest

  pub names_of : Selection → List Text
  names_of (field name set) = name ∷ names set
  names_of (inline_fragment set) = names set
  names_of (fragment_spread name) = []

abbrev pub names_all : List Selections → List Text
names_all [] = []
names_all (set ∷ sets) = names set ++ names_all sets

mutual
  unfolding count_selections count_selection names names_of

  count_selections-names : (set : Selections) → count_selections set ≡ length (names set)
  count_selections-names no_more = refl
  count_selections-names (select s rest) = omega (
    arith,
    count_selection-names_of s,
    count_selections-names rest,
    length-append (names_of s) (names rest),
  )

  count_selection-names_of : (s : Selection) → count_selection s ≡ length (names_of s)
  count_selection-names_of (field name set) = ap suc (count_selections-names set)
  count_selection-names_of (inline_fragment set) = count_selections-names set
  count_selection-names_of (fragment_spread name) = refl

count_all-names_all : (sets : List Selections) → count_all sets ≡ length (names_all sets)
count_all-names_all [] = refl
count_all-names_all (set ∷ sets) = omega (
  arith,
  count_selections-names set,
  count_all-names_all sets,
  length-append (names set) (names_all sets),
)

module _ (number_text : ℕ → Text) (parse : Text → Option Document) where
  -- A query that is let through is no longer than the limit, whether it parses or not; and if it parses, its
  -- operations and fragments together name no more fields than the limit.
  pub query_shape_limit-bounds :
      (max_bytes max_fields : ℕ) (query : Text)
      → query_shape_limit number_text parse max_bytes max_fields query ≡ none
      → (length query ≤ max_bytes)
        × ((doc : Document)
            → parse query ≡ some doc
            → length (names_all doc.operations ++ names_all doc.fragments) ≤ max_fields)
  unfolding query_shape_limit count_fields
  query_shape_limit-bounds max_bytes max_fields query h =
      elim (Bool-cases (ltb max_bytes (length query))) [
        | inl long ↦ absurd (some_not_none (rw long at h))
        | inr short ↦ (
          ltb-false→le _ _ short,
          λ doc parsed.
              elim (Bool-cases
                (ltb max_fields (count_all doc.operations + count_all doc.fragments))) [
                  | inl many ↦ absurd (some_not_none (rw (short, parsed, many) at h))
                  | inr few ↦ omega (
                    arith,
                    ltb-false→le _ _ few,
                    count_all-names_all doc.operations,
                    count_all-names_all doc.fragments,
                    length-append (names_all doc.operations) (names_all doc.fragments),
                  )
                ],
        )
      ]
    where
      some_not_none : {e : GraphError} → some e ≡ none → ⊥
      some_not_none x = cc

module _ (codec : Codec) (lib : Library) (st : State) (m : Moment) where
  run_as-user :
      (x : State × Resolved) (p : Profile)
      → (run_as x).1 ≡ ok (some p)
      → ((run_as x).0 ≡ x.0) × (x.1.user ≡ some p)
  run_as-user (st', x) p h = elim (Option-cases x.user) [
    | inl e ↦ absurd (err_not_ok (rw e at h))
    | inr (q, e) ↦ (rw e refl, e ∙ ok_inj (rw e at h))
  ]
    where
      err_not_ok : {e : GraphError} → err e ≡ ok (some p) → ⊥
      err_not_ok y = cc

      ok_inj :
          {q : Profile}
          → ◌≡◌ {A = Result GraphError (Option Profile)} (ok (some q)) (ok (some p))
          → some q ≡ some p
      ok_inj y = cc

  -- Without mock identities and with a coherent cache, an operation of a WebSocket runs with a user only if the token
  -- that opened the connection is verified now, and the user is the row of its subject now, whoever it was before.
  pub refresh_websocket_user-IsAuthentic :
      (bearer mock_sub : Text) (before : Option Profile) (p : Profile)
      → IsCoherent codec st.world
      → (refresh_websocket_user codec lib false st m (some (bearer, mock_sub)) before).1
        ≡ ok (some p)
      → IsAuthentic codec lib st m bearer p
          (refresh_websocket_user codec lib false st m (some (bearer, mock_sub)) before).0
  unfolding refresh_websocket_user resolve
  refresh_websocket_user-IsAuthentic bearer mock_sub before p coherent h =
      let (same_state, found) = run_as-user (resolve_token codec lib st m bearer) p h in
      rw same_state (resolve_token-Shows codec lib st m bearer coherent p found)
