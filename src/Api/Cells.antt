-- ===== src/Api/Cells.antt =====
-- The structs of pkg/apis/sources/v1alpha1 in memory, with their pointers and slices:
-- yipyapsource_types.go.
use knative_source.Base.{ℕ, Option, none, some, List, Str}
use knative_source.Base.Int.{ℤ}
use knative_source.Base.Memory.{Memory}
use knative_source.Api.Types.{ApiKeyReference}

-- The structs of other packages, which have `DeepCopyInto` methods of their own, and their cells. A
-- `TimeRef` is a pointer to a `metav1.Time` that is not nil.
pub record Parts : Type 1 where
  pub Meta : Type 0
  pub SourceSpec : Type 0
  pub SourceStatus : Type 0
  pub TimeRef : Type 0
  pub ListMeta : Type 0
  pub Foreign : Type 0

-- A slice that is not nil: the address of its array and its length.
pub record Slice : Type 0 where
  pub array : ℕ
  pub len : ℕ

pub record TypeMeta : Type 0 where
  pub kind : Str
  pub api_version : Str

pub record FilterCell : Type 0 where
  pub types : Option Slice
  pub monitor_ids : Option Slice
  pub severities : Option Slice

pub record SpecCell (k : Parts) : Type 0 where
  pub source_spec : k.SourceSpec
  pub api_key_ref : ApiKeyReference
  pub base_url : Str
  pub filter : Option ℕ
  pub mode : Str
  pub service_account_name : Str

pub record StatusCell (k : Parts) : Type 0 where
  pub source_status : k.SourceStatus
  pub deployment_name : Str
  pub last_event_time : Option k.TimeRef
  pub event_count : ℤ

pub record SourceCell (k : Parts) : Type 0 where
  pub type_meta : TypeMeta
  pub meta : k.Meta
  pub spec : SpecCell k
  pub status : StatusCell k

pub record ListCell (k : Parts) : Type 0 where
  pub type_meta : TypeMeta
  pub list_meta : k.ListMeta
  pub items : Option Slice

-- What stands at an address: an array, or a struct that a pointer leads to.
pub data Cell (k : Parts) : Type 0 where
  strings : List Str → Cell k
  sources : List (SourceCell k) → Cell k
  key_ref : ApiKeyReference → Cell k
  filter : FilterCell → Cell k
  spec : SpecCell k → Cell k
  status : StatusCell k → Cell k
  source : SourceCell k → Cell k
  source_list : ListCell k → Cell k
  foreign : k.Foreign → Cell k

-- The cells of a type: Go's memory is typed, so that the cell at a pointer is of the pointer's type.
pub record Kind (k : Parts) (T : Type 0) : Type 0 where
  pub wrap : T → Cell k
  pub unwrap : Cell k → Option T

module _ (k : Parts) where
  abbrev pub Mem : Type 0
  Mem = Memory (Cell k)

  abbrev pub strings_of : Cell k → Option (List Str)
  strings_of (strings xs) = some xs
  strings_of _ = none

  abbrev pub sources_of : Cell k → Option (List (SourceCell k))
  sources_of (sources xs) = some xs
  sources_of _ = none

  abbrev pub key_ref_of : Cell k → Option ApiKeyReference
  key_ref_of (key_ref r) = some r
  key_ref_of _ = none

  abbrev pub filter_of : Cell k → Option FilterCell
  filter_of (filter f) = some f
  filter_of _ = none

  abbrev pub spec_of : Cell k → Option (SpecCell k)
  spec_of (spec s) = some s
  spec_of _ = none

  abbrev pub status_of : Cell k → Option (StatusCell k)
  status_of (status s) = some s
  status_of _ = none

  abbrev pub source_of : Cell k → Option (SourceCell k)
  source_of (source s) = some s
  source_of _ = none

  abbrev pub list_of : Cell k → Option (ListCell k)
  list_of (source_list l) = some l
  list_of _ = none

  abbrev pub key_refs : Kind k ApiKeyReference
  key_refs = record { wrap = key_ref; unwrap = key_ref_of }

  abbrev pub filters : Kind k FilterCell
  filters = record { wrap = filter; unwrap = filter_of }

  abbrev pub specs : Kind k (SpecCell k)
  specs = record { wrap = spec; unwrap = spec_of }

  abbrev pub statuses : Kind k (StatusCell k)
  statuses = record { wrap = status; unwrap = status_of }

  abbrev pub source_cells : Kind k (SourceCell k)
  source_cells = record { wrap = source; unwrap = source_of }

  abbrev pub lists : Kind k (ListCell k)
  lists = record { wrap = source_list; unwrap = list_of }
