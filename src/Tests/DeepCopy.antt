-- ===== src/Tests/DeepCopy.antt =====
-- Runs of the theorems on deep copies.
use knative_source.Base.{
  arith, refl, Option, none, some, [], ◌∷◌, Str, List, if◌then◌else◌, nat_eq, ◌==◌,
}
use knative_source.Base.Bytes.{bytes}
use knative_source.Base.Dict.{Dict}
use knative_source.Base.Int.{ℤ, pos}
use knative_source.Base.Memory.{IsDeepCopy-plain}
use knative_source.Knative.{Destination}
use knative_source.Api.Types.{ObjectMeta}
use knative_source.Api.Cells.{
  Parts, TypeMeta, FilterCell, SourceCell, ListCell, strings, sources, filter, source, source_list,
  Mem,
}
use knative_source.Api.DeepCopy.{PartCopies, source_deep_copy_object, list_deep_copy_object}
use knative_source.Api.DeepCopy.Structs.{PartLaws, IsStoredSource}
use knative_source.Api.DeepCopy.Independent.{
  IsIndependent, view_source_at, view_list_at, source_deep_copy_object-IsIndependent,
  list_deep_copy_object-IsIndependent,
}
use knative_source.Tests.Source.{source as test_source}

abbrev parts : Parts
parts = record {
  Meta = ObjectMeta;
  SourceSpec = Destination × Option (Dict Str Str);
  SourceStatus = Unit {0} × ℤ × Option Str × List Str;
  TimeRef = Str;
  ListMeta = Str;
  Foreign = Unit {0};
}

abbrev copies : PartCopies parts
copies = record {
  meta = λ t m. (t, m);
  source_spec = λ t m. (t, m);
  source_status = λ t m. (t, m);
  time = λ t m. (t, m);
  list_meta = λ t m. (t, m);
}

abbrev laws : PartLaws parts copies (Unit {0}) Str
laws = record {
  view_meta = λ m t. t;
  view_source_spec = λ m t. t;
  view_source_status = λ m t. t;
  view_time = λ m t. t;
  view_list_meta = λ m t. t;
  IsStoredMeta = λ m t. Unit {0};
  IsStoredSourceSpec = λ m t. Unit {0};
  IsStoredSourceStatus = λ m t. Unit {0};
  IsStoredTime = λ m t. Unit {0};
  IsStoredListMeta = λ m t. Unit {0};
  meta = IsDeepCopy-plain;
  source_spec = IsDeepCopy-plain;
  source_status = IsDeepCopy-plain;
  time = IsDeepCopy-plain;
  list_meta = IsDeepCopy-plain;
}

abbrev types : TypeMeta
types = record { kind = bytes "YipYapSource"; api_version = bytes "sources.yipyap.run/v1alpha1" }

-- A source with a filter for one type at address 1, whose array is at address 0.
abbrev cell : SourceCell parts
cell = record {
  type_meta = types;
  meta = test_source.meta;
  spec = record {
    source_spec = (test_source.spec.sink, none);
    api_key_ref = test_source.spec.api_key_ref;
    base_url = bytes "b";
    filter = some 1;
    mode = bytes "poll";
    service_account_name = [];
  };
  status = record {
    source_status = (tt, pos 1, none, []);
    deployment_name = bytes "d";
    last_event_time = some (bytes "t");
    event_count = pos 0;
  };
}

abbrev filter_cell : FilterCell
filter_cell = record {
  types = some (record { array = 0; len = 1 });
  monitor_ids = none;
  severities = none;
}

abbrev list_cell : ListCell parts
list_cell = record {
  type_meta = types;
  list_meta = bytes "7";
  items = some (record { array = 3; len = 1 });
}

-- The source stands at address 2, and a list with it at address 4.
abbrev memory : Mem parts
memory = record {
  next = 5;
  cell = λ a.
      if a == 0
      then strings (bytes "run.yipyap.*" ∷ [])
      else if a == 1
      then filter filter_cell
      else if a == 2
      then source cell
      else if a == 3
      then sources (cell ∷ [])
      else source_list list_cell;
}

cell-IsStored : IsStoredSource parts copies laws memory cell
cell-IsStored = (
  (
    tt,
    (
      tt,
      (omega arith, filter_cell, refl, (((omega arith, bytes "run.yipyap.*" ∷ [], refl), tt), tt)),
    ),
  ),
  (tt, tt),
)

source_deep_copy_object-IsIndependent_example :
    IsIndependent
      (view_source_at parts copies laws)
      memory
      (some 2)
      (source_deep_copy_object parts copies (some 2) memory)
source_deep_copy_object-IsIndependent_example =
    source_deep_copy_object-IsIndependent parts copies laws (some 2) memory
      (omega arith, cell, refl, cell-IsStored)

list_deep_copy_object-IsIndependent_example :
    IsIndependent
      (view_list_at parts copies laws)
      memory
      (some 4)
      (list_deep_copy_object parts copies (some 4) memory)
list_deep_copy_object-IsIndependent_example =
    list_deep_copy_object-IsIndependent parts copies laws (some 4) memory
      (omega arith, list_cell, refl, (tt, (omega arith, cell ∷ [], refl, (cell-IsStored, tt))))
