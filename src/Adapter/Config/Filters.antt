-- ===== src/Adapter/Config/Filters.antt =====
-- `parseEventFilters` against a reference, and against the join that writes the value.
use knative_source.Base.{◌≡◌, refl, ◌∙◌, ap, ap₂, sym, false, List, [], ◌∷◌, ◌++◌, map}
use knative_source.Base.{if◌then◌else◌, Str, str_beq, str_eq, ◌==◌, All, Bool-cases, inl, inr}
use knative_source.Base.Bytes.{split, join}
use knative_source.Base.Bytes.Split.{Lacks, split-join, split_at_sep}
use knative_source.Base.Bytes.Trim.{trim_space}
use knative_source.Adapter.Config.{filter_loop, parse_event_filters}
use mathlib.Core.List.{append_assoc, append-nil, map-append}

-- The parts that are not empty.
pub non_empty : List Str → List Str
non_empty [] = []
non_empty (f ∷ fs) = if f == [] then non_empty fs else f ∷ non_empty fs

filter_loop_lem :
    (acc parts : List Str) → filter_loop acc parts ≡ acc ++ non_empty (map trim_space parts)
unfolding filter_loop non_empty
filter_loop_lem acc [] = rw append-nil
filter_loop_lem acc (p ∷ ps) = elim (Bool-cases (trim_space p == [])) [
  | inl blank ↦ rw blank (filter_loop_lem acc ps)
  | inr kept ↦ rw kept (filter_loop_lem (acc ++ (trim_space p ∷ [])) ps ∙ append_assoc acc _ _)
]

-- The filters are the parts between commas, without the white space around them and without the
-- empty ones, in their order.
pub parse_event_filters-eq-non_empty :
    (raw : Str) → parse_event_filters raw ≡ non_empty (map trim_space (split b',' raw))
unfolding parse_event_filters
parse_event_filters-eq-non_empty raw = filter_loop_lem [] (split b',' raw)

-- An entry that survives the trip through the variable: no comma, and no white space around it.
pub record IsClean (f : Str) : Type 0 where
  pub lacks_comma : Lacks b',' f
  pub trimmed : trim_space f ≡ f
  pub not_empty : (f == []) ≡ false

non_empty-trim_clean : (fs : List Str) → All IsClean fs → non_empty (map trim_space fs) ≡ fs
unfolding non_empty
non_empty-trim_clean [] h = refl
non_empty-trim_clean (f ∷ fs) h =
    rw (h.0.trimmed, h.0.not_empty) (ap (λ r. f ∷ r) (non_empty-trim_clean fs h.1))

lacking_of_clean : (fs : List Str) → All IsClean fs → All (Lacks b',') fs
lacking_of_clean [] h = tt
lacking_of_clean (f ∷ fs) h = (h.0.lacks_comma, lacking_of_clean fs h.1)

-- Type globs that hold no comma, have no white space around them and are not empty come back as
-- they were from the comma-separated value.
pub parse_event_filters-join :
    (fs : List Str) → All IsClean fs → parse_event_filters (join b',' fs) ≡ fs
unfolding split join str_beq
parse_event_filters-join [] h =
    parse_event_filters-eq-non_empty [] ∙ (unfold trim_space non_empty in refl)
parse_event_filters-join (f ∷ fs) h =
    parse_event_filters-eq-non_empty (join b',' (f ∷ fs))
    ∙ rw (split-join b',' f fs (lacking_of_clean (f ∷ fs) h)) (non_empty-trim_clean (f ∷ fs) h)

non_empty-append : (a b : List Str) → non_empty (a ++ b) ≡ non_empty a ++ non_empty b
unfolding non_empty
non_empty-append [] b = refl
non_empty-append (f ∷ fs) b = elim (Bool-cases (f == [])) [
  | inl blank ↦ rw blank (non_empty-append fs b)
  | inr kept ↦ rw kept (ap (λ r. f ∷ r) (non_empty-append fs b))
]

-- A comma separates filters, whatever stands on its sides.
parse_event_filters-append :
    (p s : Str)
    → parse_event_filters (p ++ (b',' ∷ s)) ≡ parse_event_filters p ++ parse_event_filters s
parse_event_filters-append p s =
    parse_event_filters-eq-non_empty (p ++ (b',' ∷ s))
    ∙ ap (λ parts. non_empty (map trim_space parts)) (split_at_sep b',' p s)
    ∙ ap non_empty (map-append trim_space (split b',' p) (split b',' s))
    ∙ non_empty-append _ _
    ∙ sym (
        ap₂ (λ a b. a ++ b) (parse_event_filters-eq-non_empty p)
          (parse_event_filters-eq-non_empty s))

-- The filters of each type by itself, one after the other.
pub pieces : List Str → List Str
pieces [] = []
pieces (t ∷ ts) = parse_event_filters t ++ pieces ts

-- The comma-separated value of any types is parsed into the filters of each.
pub parse_event_filters-pieces : (ts : List Str) → parse_event_filters (join b',' ts) ≡ pieces ts
unfolding join pieces
parse_event_filters-pieces [] = parse_event_filters-join [] tt
parse_event_filters-pieces (t ∷ []) = sym (append-nil _)
parse_event_filters-pieces (t ∷ u ∷ ts) =
    parse_event_filters-append t (join b',' (u ∷ ts))
    ∙ ap (λ r. parse_event_filters t ++ r) (parse_event_filters-pieces (u ∷ ts))
