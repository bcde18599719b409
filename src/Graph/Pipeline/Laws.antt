-- ===== src/Graph/Pipeline/Laws.antt =====
-- What an operation of a WebSocket has passed when its resolver runs.
use lite_end_go.Base.{
  ℕ, ◌≤◌, ◌≡◌, refl, sym, ap, ◌∙◌, subst, inl, inr, Bool, true, false, Option, none, some, List,
  ◌∷◌, ◌++◌, Option-cases, is_empty, length, ok, err, if◌then◌else◌,
}
use lite_end_go.Strings.{Text}
use lite_end_go.Middleware.RateLimit.{Reply, allow}
use lite_end_go.Profile.Store.{Profile}
use lite_end_go.Profile.Service.{Codec}
use lite_end_go.Profile.Service.Coherence.{IsCoherent}
use lite_end_go.Auth.KeySet.{Library}
use lite_end_go.Auth.Resolve.{State, Moment}
use lite_end_go.Auth.Resolve.Laws.{IsAuthentic}
use lite_end_go.Graph.Avatar.{GraphError}
use lite_end_go.Graph.Operations.{too_many_requests}
use lite_end_go.Graph.Transport.{
  Document, query_shape_limit, ws_operation_charge, refresh_websocket_user,
}
use lite_end_go.Graph.Transport.Laws.{
  names_all, query_shape_limit-bounds, refresh_websocket_user-IsAuthentic,
}
use lite_end_go.Graph.Pipeline.{
  Extension, ws_charge, shape_limit, extensions, Operation, graphql_max_query_bytes,
  graphql_max_fields, mutate_parameters, first_refusal, admitted_as, admit,
}

module _ (number_text : ℕ → Text) (parse : Text → Option Document) (limiter : Text → Reply) where
  some-ne-none : {e : GraphError} → some e ≡ none → ⊥
  some-ne-none h = cc

  first_refusal-none :
      (x : Extension) (xs : List Extension) (op : Operation)
      → first_refusal number_text parse limiter (x ∷ xs) op ≡ none
      → (mutate_parameters number_text parse limiter x op ≡ none)
        × (first_refusal number_text parse limiter xs op ≡ none)
  unfolding first_refusal
  first_refusal-none x xs op h =
      elim (Option-cases (mutate_parameters number_text parse limiter x op)) [
        | inl e ↦ (e, rw (first_refusal, e) at h)
        | inr (r, e) ↦ absurd (some-ne-none (rw (first_refusal, e) at h))
      ]

  first_refusal-some :
      (x : Extension) (xs : List Extension) (op : Operation) (e : GraphError)
      → mutate_parameters number_text parse limiter x op ≡ some e
      → first_refusal number_text parse limiter (x ∷ xs) op ≡ some e
  unfolding first_refusal
  first_refusal-some x xs op e h = rw (first_refusal, h) refl

  -- The first two extensions where there is a limiter.
  two_first :
      (is_prod : Bool)
      → (xs : List Extension) × (extensions true is_prod ≡ ws_charge ∷ shape_limit ∷ xs)
  unfolding extensions
  two_first true = (_, refl)
  two_first false = (_, refl)

  -- An operation that comes over a WebSocket opened with a rate key.
  abbrev pub IsCharged : Operation → Type 0
  IsCharged op = (op.is_ws ≡ true) × (is_empty op.key ≡ false)

  charge-reply :
      (op : Operation)
      → IsCharged op
      → ws_operation_charge limiter op.is_ws op.key
        ≡ (if (allow (limiter op.key)).0 then none else some too_many_requests)
  unfolding ws_operation_charge
  charge-reply op (ws, keyed) = rw (ws, keyed) refl

  allowed-if : (b : Bool) → (if b then none else some too_many_requests) ≡ none → b ≡ true
  allowed-if true h = refl
  allowed-if false h = absurd (some-ne-none h)

  module _ (codec : Codec) (lib : Library) (st : State) (m : Moment) where
    -- What stands behind an operation that runs.
    pub record IsAdmitted (bearer : Text) (op : Operation) (p : Profile) (st' : State)
        : Type 0 where
      pub within_budget : (allow (limiter op.key)).0 ≡ true
      pub within_bytes : length op.query ≤ graphql_max_query_bytes
      pub within_fields :
          (doc : Document)
          → parse op.query ≡ some doc
          → length (names_all doc.operations ++ names_all doc.fragments) ≤ graphql_max_fields
      pub authentic : IsAuthentic codec lib st m bearer p st'

    admitted_as-ok :
        (op : Operation) (o : Option GraphError) (p : Profile)
        → (admitted_as number_text parse limiter codec lib false st m op o).1 ≡ ok (some p)
        → o ≡ none
    unfolding admitted_as
    admitted_as-ok op none p h = refl
    admitted_as-ok op (some e) p h = cc

    admitted-user :
        (op : Operation) (bearer mock_sub : Text) (p : Profile)
        → op.creds ≡ some (bearer, mock_sub)
        → IsCoherent codec st.world
        → (refresh_websocket_user codec lib false st m op.creds op.user).1 ≡ ok (some p)
        → IsAuthentic codec lib st m bearer p
            (refresh_websocket_user codec lib false st m op.creds op.user).0
    admitted-user op bearer mock_sub p creds coherent =
        subst
          (λ c.
            (refresh_websocket_user codec lib false st m c op.user).1 ≡ ok (some p)
            → IsAuthentic codec lib st m bearer p
                (refresh_websocket_user codec lib false st m c op.user).0)
          (sym creds)
          (refresh_websocket_user-IsAuthentic codec lib st m bearer mock_sub op.user p coherent)

    passed :
        (is_prod : Bool) (op : Operation)
        → first_refusal number_text parse limiter (extensions true is_prod) op ≡ none
        → (ws_operation_charge limiter op.is_ws op.key ≡ none)
          × (query_shape_limit number_text parse graphql_max_query_bytes graphql_max_fields op.query
              ≡ none)
    unfolding mutate_parameters
    passed is_prod op h =
        let (xs, same_list) = two_first is_prod in
        let (charge, rest) =
          first_refusal-none ws_charge (shape_limit ∷ xs) op
            (subst (λ l. first_refusal number_text parse limiter l op ≡ none) same_list h) in
        (charge, (first_refusal-none shape_limit xs op rest).0)

    -- With a limiter, without mock identities and with a coherent cache: an operation of a WebSocket that was
    -- opened with a rate key runs with a user only within the budget of that key, with a query that is no longer
    -- than 128 KiB and, if it parses, names at most 500 fields, and for the row of the subject of the
    -- connection's token, which is verified now. Over the budget it is refused with 429 and nothing else is
    -- done for it, whatever the query.
    pub admit-IsAdmitted :
        (is_prod : Bool) (op : Operation) (bearer mock_sub : Text)
        → IsCharged op
        → op.creds ≡ some (bearer, mock_sub)
        → IsCoherent codec st.world
        → ((p : Profile)
            → (admit number_text parse limiter codec lib false true is_prod st m op).1 ≡ ok (some p)
            → IsAdmitted bearer op p
                (admit number_text parse limiter codec lib false true is_prod st m op).0)
          × ((allow (limiter op.key)).0 ≡ false
              → admit number_text parse limiter codec lib false true is_prod st m op
                ≡ (st, err too_many_requests))
    unfolding admit admitted_as mutate_parameters
    admit-IsAdmitted is_prod op bearer mock_sub charged creds coherent = (
      λ p h.
          let none_refused = admitted_as-ok op (refusal is_prod) p h in
          let (charge, shape) = passed is_prod op none_refused in
          let (within_bytes, within_fields) =
            query_shape_limit-bounds number_text parse graphql_max_query_bytes graphql_max_fields
              op.query shape in
          subst
            (λ r.
              IsAdmitted bearer op p
                (admitted_as number_text parse limiter codec lib false st m op r).0)
            (sym none_refused)
            (record {
              within_budget = allowed-if _ (sym (charge-reply op charged) ∙ charge);
              within_bytes = within_bytes;
              within_fields = within_fields;
              authentic = admitted-user op bearer mock_sub p creds coherent (
                  subst
                    (λ r.
                      (admitted_as number_text parse limiter codec lib false st m op r).1
                      ≡ ok (some p))
                    none_refused h);
            }),
      λ denied.
          let (xs, same_list) = two_first is_prod in
          let refused =
            charge-reply op charged ∙ ap (λ b. if b then none else some too_many_requests) denied in
          ap (admitted_as number_text parse limiter codec lib false st m op) (
            ap (λ l. first_refusal number_text parse limiter l op) same_list
            ∙ first_refusal-some ws_charge (shape_limit ∷ xs) op too_many_requests refused),
    )
      where
        refusal : Bool → Option GraphError
        refusal prod = first_refusal number_text parse limiter (extensions true prod) op
