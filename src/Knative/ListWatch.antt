-- ===== src/Knative/ListWatch.antt =====
-- What the informer of the sources uses of k8s.io/client-go/tools/cache and of a clientset.
use knative_source.Base.{Option, Str}
use knative_source.Base.Duration.{Duration}

-- The types of the client libraries. A `Call` is what a request to the server gives.
pub record InformerTypes : Type 1 where
  pub Client : Type 0
  pub Context : Type 0
  pub OtherOptions : Type 0
  pub Call : Type 0
  pub Transform : Type 0
  pub Informer : Type 0

-- `metav1.ListOptions`
pub record ListOptions (k : InformerTypes) : Type 0 where
  pub label_selector : Str
  pub others : k.OtherOptions

abbrev pub Tweak : InformerTypes → Type 0
Tweak k = ListOptions k → ListOptions k

-- `cache.ListWatch`
pub record ListWatch (k : InformerTypes) : Type 0 where
  pub list_func : ListOptions k → k.Call
  pub watch_func : ListOptions k → k.Call
  pub list_with_context_func : k.Context → ListOptions k → k.Call
  pub watch_func_with_context : k.Context → ListOptions k → k.Call

-- `cache.Indexers`, as the program makes them: by namespace, or as a caller gives them.
pub data Indexers : Type 0 where
  by_namespace : Indexers
  no_indexers : Indexers

-- What the libraries do: the background context, the list and the watch of a client in a namespace,
-- `NewSharedIndexInformer` and `SetTransform`.
pub record InformerLib (k : InformerTypes) : Type 0 where
  pub background : k.Context
  pub list_sources : k.Client → Str → k.Context → ListOptions k → k.Call
  pub watch_sources : k.Client → Str → k.Context → ListOptions k → k.Call
  pub new_shared_index_informer : ListWatch k → Duration → Indexers → k.Informer
  pub set_transform : Option k.Transform → k.Informer → k.Informer
