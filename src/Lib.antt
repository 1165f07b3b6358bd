-- ===== src/Lib.antt =====
-- The YipYap Knative event source.
--
-- The program is a Kubernetes controller and an adapter. A user creates a YipYapSource, with a sink,
-- a Secret and filters. The webhook fills in defaults and validates the source. The controller
-- resolves the sink and keeps one Deployment for each source, in which the adapter runs. The adapter
-- polls the YipYap server or reads a stream of it, and posts each CloudEvent to the sink.
--
-- Files and code:
--   Adapter/Config: cmd/receive-adapter/source/config.go. LoadConfig is load_config.
--   Adapter/Mode: source/mode.go. ResolveMode is resolve_mode, fetchServerHint fetch_server_hint,
--     and resolutionFromHint resolution_from_hint.
--   Adapter/Sink: source/sink.go. Send is send, over the function that posts a request.
--   Adapter/Poll: source/poll.go. PollClient.Run is poll_run, on the list of its ticks; a tick is
--     what the server answers then. fetch is fetch. Poll/Cursor has the cursor file: a write is the
--     list of the steps that it makes on a disk.
--   Adapter/Stream: source/stream.go. streamOnce is stream_once and run is stream_run, on the list
--     of the connections.
--   Adapter/Run: source/run.go. Run is run, on the list of the iterations of its loop.
--     Run/Disk joins it with the cursor file.
--   Adapter/Process: cmd/receive-adapter/main.go. main is main, and startHealthServer is
--     new_health_server, with serve for what its mux answers.
--   Api: pkg/apis/sources/v1alpha1, with the types, SetDefaults, Validate and the marks of the
--     status. Api/Registration has the group and its kinds, and what a scheme is told. Api/Cells has
--     the structs in memory, with their pointers and slices, and Api/DeepCopy the generated deep copies
--     of zz_generated.deepcopy.go.
--   Controller/Deployment: pkg/reconciler/yipyapsource/resources/deployment.go.
--   Controller/Reconcile: pkg/reconciler/yipyapsource/yipyapsource.go. ReconcileKind is
--     reconcile_kind; it returns the status, the error and the requests that were made.
--   Controller/Wiring: pkg/reconciler/yipyapsource/controller.go. NewController is new_controller.
--     Controller/Deployment/Process runs the adapter's process in a rendered container.
--     Controller/Deployment/Admitted joins the defaults, the validation and the variables of the adapter.
--     Controller/Running has ReconcileKind below the generated reconciler.
--   Webhook: cmd/webhook/main.go. main is main, over the library in Knative/Webhook. Webhook/Works
--     goes from requests of admission to the adapter's process.
--   Clients: pkg/client/clientset/versioned, with the client of the group in typed/sources/v1alpha1.
--   Injection: the generated reconciler in pkg/client/injection/reconciler. State has state.go.
--     Reconcile has Reconcile and updateStatus, Finalizers the rest of reconciler.go. Options has
--     what NewReconciler and NewImpl make of their options. The state of the world is passed from call
--     to call.
--     Injection/Informers has what pkg/client/injection/client and pkg/client/injection/informers put
--     into a context and take from it.
--   Informers: pkg/client/informers/externalversions/factory.go. Its clients' calls are steps, in any
--     order. Informers/Sources has the informer of the sources, in generic.go and below sources, and
--     the listers of pkg/client/listers.
--   Knative and Controller/Kube: the plain data and the interfaces of knative.dev/pkg, client-go and
--     Kubernetes that the program uses. Base: shared types, numbers, texts and requests.
--   Tests: runs of the theorems on concrete inputs.
--
-- A pointer is the address of a cell in a memory (Base/Memory) where it matters which struct it leads
-- to: in the deep copies, and for the factories that informers share. Elsewhere a struct is its value.
--
-- Texts are lists of bytes. Numbers are native; a time.Duration is a signed integer whose product
-- wraps around at 64 bits. Loops that end with a context run on the list of what they meet until
-- then, so no fuel is needed: each list is one course of the loop, of any length. The retry of a
-- status update is a parameter, which is assumed to make a number of attempts.
--
-- What other projects provide is a parameter: URLs, HTTP, JSON, CloudEvents, the file system, the
-- condition set, field errors, the sink resolver, the lister and the client of Kubernetes. What a
-- theorem needs of one is a hypothesis with a name: IsHonest, IsLiving, IsFieldErrors, IsStable,
-- IsStore, IsStringSets, IsReadOnly, IsWebhookLib, IsGrooming, IsExtensible, IsQueue, PartLaws and others.
--
-- Not modelled: log lines, time itself, the goroutines of the health server and of the informers, the
-- main function of the controller, which hands a constructor to knative.dev/pkg, the registration with
-- injection, the fakes for tests, and the requests of the generated clients, which gentype makes.
pub mod Base
pub mod Knative
pub mod Api
pub mod Adapter
pub mod Controller
pub mod Clients
pub mod Webhook
pub mod Injection
pub mod Informers
pub mod Tests
