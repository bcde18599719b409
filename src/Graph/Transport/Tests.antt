-- ===== src/Graph/Transport/Tests.antt =====
-- The limit on queries at a concrete query.
use lite_end_go.Base.{◌≡◌, ◌≤◌, refl, Option, none, some, [], ◌∷◌, ◌++◌, length}
use lite_end_go.Strings.{Text, codes}
use lite_end_go.Graph.Transport.{
  Document, select, no_more, field, count_selections, count_selection, count_fields,
  query_shape_limit,
}
use lite_end_go.Graph.Transport.Laws.{names_all, query_shape_limit-bounds}

-- `{ me { id } }`.
abbrev me_document : Document
me_document = record {
  operations =
      select (field (codes "me") (select (field (codes "id") no_more) no_more)) no_more ∷ [];
  fragments = [];
}

abbrev parse_me : Text → Option Document
parse_me t = some me_document

let_me : query_shape_limit (λ n. n ∷ []) parse_me 100 10 (codes "{ me { id } }") ≡ none
unfolding query_shape_limit count_fields count_selections count_selection
let_me = refl

query_shape_limit-bounds_example :
    (length (codes "{ me { id } }") ≤ 100)
    × ((doc : Document)
        → parse_me (codes "{ me { id } }") ≡ some doc
        → length (names_all doc.operations ++ names_all doc.fragments) ≤ 10)
query_shape_limit-bounds_example =
    query_shape_limit-bounds (λ n. n ∷ []) parse_me 100 10 (codes "{ me { id } }") let_me
