-- ===== src/Adapter/Poll/Query.antt =====
-- The query of a poll.
use knative_source.Base.{◌≡◌, refl, ◌∙◌, false, List, [], ◌∷◌, ◌++◌, arith}
use knative_source.Base.{if◌then◌else◌, Str, str_eq, str_beq, ◌==◌, eq_refl, Bool-cases, inl, inr}
use knative_source.Base.Bytes.{bytes}
use knative_source.Base.Dict.{lookup-insert}
use knative_source.Base.Http.{Values, values_of, add_filters, query_add, query_set}
use knative_source.Adapter.Poll.{PollClient, poll_query}
use mathlib.Core.List.{append_assoc, append-nil}

module _ (k j v : Str) (q : Values) where
  values_of-query_add :
      values_of j (query_add k v q) ≡ (if k == j then values_of k q ++ (v ∷ []) else values_of j q)
  unfolding query_add values_of
  values_of-query_add = ground (arith, lookup-insert k j (values_of k q ++ (v ∷ [])) q)

  values_of-query_set : values_of j (query_set k v q) ≡ (if k == j then v ∷ [] else values_of j q)
  unfolding query_set values_of
  values_of-query_set = ground (arith, lookup-insert k j (v ∷ []) q)

-- One parameter `filter` for each filter, behind those that are there.
pub add_filters-filter :
    (fs : List Str) (q : Values)
    → values_of (bytes "filter") (add_filters fs q) ≡ values_of (bytes "filter") q ++ fs
unfolding add_filters
add_filters-filter [] q = rw append-nil
add_filters-filter (f ∷ fs) q =
    add_filters-filter fs (query_add (bytes "filter") f q)
    ∙ rw (values_of-query_add, eq_refl (bytes "filter")) (append_assoc _ (f ∷ []) fs)

-- No other parameter changes.
pub add_filters-other :
    (fs : List Str) (q : Values) (k : Str)
    → (bytes "filter" == k) ≡ false
    → values_of k (add_filters fs q) ≡ values_of k q
unfolding add_filters
add_filters-other [] q k h = refl
add_filters-other (f ∷ fs) q k h =
    add_filters-other fs (query_add (bytes "filter") f q) k h ∙ rw (values_of-query_add, h)

filter_not_since : (bytes "filter" == bytes "since") ≡ false
unfolding str_beq
filter_not_since = refl

since_not_filter : (bytes "since" == bytes "filter") ≡ false
unfolding str_beq
since_not_filter = refl

-- A poll asks for each filter, in order, and for the events since the cursor, unless that is empty.
-- What the base URL's own query says otherwise stays.
pub poll_query_lem :
    (p : PollClient) (cursor : Str) (q : Values)
    → (values_of (bytes "filter") (poll_query p cursor q)
        ≡ values_of (bytes "filter") q ++ p.filters)
      × (values_of (bytes "since") (poll_query p cursor q)
          ≡ (if cursor == [] then values_of (bytes "since") q else cursor ∷ []))
unfolding poll_query
poll_query_lem p cursor q = elim (Bool-cases (cursor == [])) [
  | inl blank ↦ (
    rw blank (add_filters-filter p.filters q),
    rw blank (add_filters-other p.filters q (bytes "since") filter_not_since),
  )
  | inr named ↦ (
    rw (named, values_of-query_set, since_not_filter) (add_filters-filter p.filters q),
    rw (named, values_of-query_set, eq_refl (bytes "since")),
  )
]
