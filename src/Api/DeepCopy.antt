-- ===== src/Api/DeepCopy.antt =====
-- pkg/apis/sources/v1alpha1/zz_generated.deepcopy.go, over an explicit memory.
pub mod Slices
pub mod Pointers
pub mod Structs
pub mod Items
pub mod Independent
use knative_source.Base.{ℕ, Option, none, some, List, [], ◌∷◌, Str, take}
use knative_source.Base.Memory.{reserve, write, alloc}
use knative_source.Api.Types.{ApiKeyReference}
use knative_source.Api.Cells.{
  Parts, Slice, FilterCell, SpecCell, StatusCell, SourceCell, ListCell, Cell, strings, sources,
  Kind, Mem, strings_of, sources_of, key_refs, filters, specs, statuses, source_cells, lists,
}

module _ (k : Parts) where
  -- `in.DeepCopyInto(out)` on what the pointer leads to.
  fill_new :
      {T : Type 0} → Kind k T → (T → Mem k → T × Mem k) → ℕ → Option T → Mem k → Option ℕ × Mem k
  fill_new c into out none m = (none, m)
  fill_new c into out (some t) m = let (t', m') = into t m in (some out, write out (c.wrap t') m')

  -- The body that each `DeepCopy` has, and the copy of a pointer inside a struct.
  unfoldable pub deep_copy :
      {T : Type 0} → Kind k T → (T → Mem k → T × Mem k) → Option ℕ → Mem k → Option ℕ × Mem k
  unfolding fill_new
  deep_copy c into none m = (none, m)
  deep_copy c into (some p) m =
      let (out, m') = reserve m in fill_new c into out (c.unwrap (m'.cell p)) m'

  -- `make` and `copy` of a `[]string`.
  make_copy : ℕ → Option (List Str) → Mem k → Option Slice × Mem k
  make_copy n none m = (none, m)
  make_copy n (some xs) m =
      let (p, m') = alloc (strings (take n xs)) m in (some (record { array = p; len = n }), m')

  unfoldable pub copy_strings : Option Slice → Mem k → Option Slice × Mem k
  unfolding make_copy
  copy_strings none m = (none, m)
  copy_strings (some s) m = make_copy s.len (strings_of k (m.cell s.array)) m

  unfoldable pub key_deep_copy_into : ApiKeyReference → Mem k → ApiKeyReference × Mem k
  key_deep_copy_into r m = (r, m)

  unfoldable pub filter_deep_copy_into : FilterCell → Mem k → FilterCell × Mem k
  filter_deep_copy_into f m =
      let (types, m1) = copy_strings f.types m in
      let (monitor_ids, m2) = copy_strings f.monitor_ids m1 in
      let (severities, m3) = copy_strings f.severities m2 in
      (record { types = types; monitor_ids = monitor_ids; severities = severities }, m3)

-- The methods of the other packages' structs.
pub record PartCopies (k : Parts) : Type 0 where
  pub meta : k.Meta → Mem k → k.Meta × Mem k
  pub source_spec : k.SourceSpec → Mem k → k.SourceSpec × Mem k
  pub source_status : k.SourceStatus → Mem k → k.SourceStatus × Mem k
  pub time : k.TimeRef → Mem k → k.TimeRef × Mem k
  pub list_meta : k.ListMeta → Mem k → k.ListMeta × Mem k

module _ (k : Parts) (parts : PartCopies k) where
  unfoldable pub spec_deep_copy_into : SpecCell k → Mem k → SpecCell k × Mem k
  spec_deep_copy_into s m =
      let (source_spec, m1) = parts.source_spec s.source_spec m in
      let (filter', m2) = deep_copy k (filters k) (filter_deep_copy_into k) s.filter m1 in
      (record s { source_spec = source_spec; filter = filter' }, m2)

  unfoldable pub copy_time : Option k.TimeRef → Mem k → Option k.TimeRef × Mem k
  copy_time none m = (none, m)
  copy_time (some t) m = let (t', m') = parts.time t m in (some t', m')

  unfoldable pub status_deep_copy_into : StatusCell k → Mem k → StatusCell k × Mem k
  status_deep_copy_into s m =
      let (source_status, m1) = parts.source_status s.source_status m in
      let (last_event_time, m2) = copy_time s.last_event_time m1 in
      (record s { source_status = source_status; last_event_time = last_event_time }, m2)

  unfoldable pub source_deep_copy_into : SourceCell k → Mem k → SourceCell k × Mem k
  source_deep_copy_into s m =
      let (meta, m1) = parts.meta s.meta m in
      let (spec', m2) = spec_deep_copy_into s.spec m1 in
      let (status', m3) = status_deep_copy_into s.status m2 in
      (record { type_meta = s.type_meta; meta = meta; spec = spec'; status = status' }, m3)

  -- The loop over the items.
  unfoldable pub copy_items : List (SourceCell k) → Mem k → List (SourceCell k) × Mem k
  copy_items [] m = ([], m)
  copy_items (s ∷ ss) m =
      let (s', m1) = source_deep_copy_into s m in let (ss', m2) = copy_items ss m1 in (s' ∷ ss', m2)

  make_items : ℕ → ℕ → Option (List (SourceCell k)) → Mem k → Option Slice × Mem k
  make_items out n none m = (none, m)
  make_items out n (some ss) m =
      let (ss', m') = copy_items (take n ss) m in
      (some (record { array = out; len = n }), write out (sources ss') m')

  unfoldable pub copy_sources : Option Slice → Mem k → Option Slice × Mem k
  unfolding make_items
  copy_sources none m = (none, m)
  copy_sources (some s) m =
      let (out, m') = reserve m in make_items out s.len (sources_of k (m'.cell s.array)) m'

  unfoldable pub list_deep_copy_into : ListCell k → Mem k → ListCell k × Mem k
  list_deep_copy_into l m =
      let (list_meta, m1) = parts.list_meta l.list_meta m in
      let (items, m2) = copy_sources l.items m1 in
      (record { type_meta = l.type_meta; list_meta = list_meta; items = items }, m2)

  -- The methods `DeepCopy` of the six types, and `DeepCopyObject` of two, whose interface value is nil
  -- where the pointer is.
  unfoldable pub key_deep_copy : Option ℕ → Mem k → Option ℕ × Mem k
  key_deep_copy = deep_copy k (key_refs k) (key_deep_copy_into k)

  unfoldable pub filter_deep_copy : Option ℕ → Mem k → Option ℕ × Mem k
  filter_deep_copy = deep_copy k (filters k) (filter_deep_copy_into k)

  unfoldable pub spec_deep_copy : Option ℕ → Mem k → Option ℕ × Mem k
  spec_deep_copy = deep_copy k (specs k) spec_deep_copy_into

  unfoldable pub status_deep_copy : Option ℕ → Mem k → Option ℕ × Mem k
  status_deep_copy = deep_copy k (statuses k) status_deep_copy_into

  unfoldable pub source_deep_copy : Option ℕ → Mem k → Option ℕ × Mem k
  source_deep_copy = deep_copy k (source_cells k) source_deep_copy_into

  unfoldable pub list_deep_copy : Option ℕ → Mem k → Option ℕ × Mem k
  list_deep_copy = deep_copy k (lists k) list_deep_copy_into

  -- `if c := in.DeepCopy(); c != nil { return c }`
  object_of : Option ℕ × Mem k → Option ℕ × Mem k
  object_of (none, m) = (none, m)
  object_of (some c, m) = (some c, m)

  unfoldable pub source_deep_copy_object : Option ℕ → Mem k → Option ℕ × Mem k
  unfolding object_of
  source_deep_copy_object p m = object_of (source_deep_copy p m)

  unfoldable pub list_deep_copy_object : Option ℕ → Mem k → Option ℕ × Mem k
  unfolding object_of
  list_deep_copy_object p m = object_of (list_deep_copy p m)
