-- ===== src/Lib.antt =====
-- Noe is a Kubernetes admission webhook and controller: it places pods on nodes whose architecture
-- all of their images support. This library models its core and states what makes it correct.
--
-- The parts and how they interact:
--   * pkg/arch/hook.go, the admission hook (Hook). For a pod that is created, and for a daemon set,
--     `Handle` calls `updatePodSpec`, which asks the registry for the platforms of each image in a
--     goroutine of its own, intersects the architectures as the answers arrive, and writes a node
--     selector or a node affinity into the pod.
--   * pkg/controllers/pod.go, the pod reconciler (Controller). It asks the same registry, keeps
--     reference counts of the images in use, and deletes a pod that stands on a node whose
--     platform one of its images does not support.
--   * pkg/registry (Registry). `CachedRegistry` (cache.go) answers both from its cache, and else asks
--     `PlainRegistry` (registry.go), which tries the credentials that the authenticators send, one
--     after another. Its requests go through `WWWAuthenticateTransport` (registry.go,
--     www_authenticate.go), which fetches tokens and caches them.
--   * pkg/httputils (Http): round trippers around another one, and pkg/log (Logging): the fields of
--     messages.
--   * cmd/noe/main.go (Startup) configures the hook and the registry from the flags.
--     cmd/report/main.go (Report) asks the registry for the images of all pods.
--
-- Which file models which part; functions keep their Go names, in lower case with underscores:
--   * Kube: the types of k8s.io/api that are read and written. Kube/Scheduling: when the scheduler
--     may place a pod on a node, as Kubernetes documents node selectors and node affinity. The
--     code for it is not in the repository, so it is a specification; requirements on fields, and
--     those with another operator than In, are a parameter (`others`).
--   * Hook, Hook/Secrets, Hook/Selection, Hook/Labels, Hook/Architectures, Hook/Update: the types
--     of hook.go, GetImagePullSecretFromPodSpec, PodSpecHasNodeArchitectureSelection and
--     GetContainerImages, addPodNodeMatchingLabels, the goroutines and their channel, and
--     updatePodSpec. The state is the pod spec with the increments of the metrics (`Progress`).
--     What the goroutines send is a list of arrivals; the relation `Runs` says which lists they
--     can send.
--   * Hook/Events and Hook/Handle: the events, toJson and Handle.
--   * Controller, Controller/Statistics, Controller/Events, Controller/Reconcile: PodReconciler, its
--     counters and caches, the deletion of a pod, and Reconcile. The state is the record
--     `Reconciler`, which holds the maps podImages and imagePlatforms, and what was done to the
--     gauge, to the deletions and to the events, as lists. Controller/Gauge: what the changes make of a
--     series of the gauge, and the states that reconciliations reach from NewPodReconciler
--     (`Reached`).
--   * Registry, Registry/Names: parseImage. Registry/Manifests: listArchsWithAuth, and ListArchs on
--     what parseImage returns. Registry/Cache: Cache with Load, LoadOrCall, Store and CleanUp, each
--     as one that runs alone. Registry/Calls: LoadOrCall and CleanUp as a step relation, with the
--     mutexes of the keys; `Reach` are the states that any interleaving of `n` calls and the
--     clean-ups reaches. Registry/Cached: CachedRegistry. Registry/Patterns:
--     imageMatchesLoginPattern and the anonymous authenticator. Registry/Options: NewPlainRegistry,
--     its builders and ParseRegistryProxies. Registry/RateLimits: getRateLimitHeaders and
--     updateRemaingRateLimits. Registry/Plain: ListArchs, composed of parseImage, the
--     authenticators and the loop over their candidates.
--   * Registry/Requests: newGetManifestRequest and NewWWWAuthenticateRequest. Registry/Transport:
--     WWWAuthenticateTransport.RoundTrip, over the cache of Registry/Cache. The result of `round_trip`
--     is what is returned, the increments of the metrics, the world and the cache.
--   * Registry/Credentials with Docker, Containerd, Kubelet and Authenticators: the authenticators of
--     docker_credentials.go, containerd_credentials.go, kubelet_credentials.go and login.go. Each
--     is the list of the candidates that it sends. Registry/Candidates: the goroutine of ListArchs that
--     sends them and the loop that receives them, with its cancellation, as a step relation.
--   * Hook/Options: NewHandler, its options and ParseMatchNodeLabels. Startup: the flags of cmd/noe and
--     what they configure. Startup/Serving: main with its calls of the manager and of the registry of
--     metrics, as a list of actions that is performed. Metrics: the vectors of all parts.
--   * Http/RateLimiter: RateLimitedRoundTripper. The state `System` has the maps requestsChans and
--     inFlights, the channels with their workers, and where each caller of RoundTrip stands; `Step`
--     is what one goroutine does under the mutex, or one communication, and `Reach` the states that
--     any interleaving of `n` callers reaches, with the number of the callers' steps.
--   * Http/Monitored: the labels of MonitoredRoundTripper, InstrumentHandler and RegistryLabeller.
--     Http/Caching: ForcedCacheTransport. Logging: log.go and logr.go. Report: main of cmd/report.
--   * The other files prove things: Hook/Labels/Placement and Matching, Hook/Architectures/Members
--     and Order, Hook/Update/Placement, Order, Errors and Frame, Hook/Handle/Failures,
--     Controller/Counting, Invariant, Evictions, Leaks, and Gauge with Changes, Shown and Runs,
--     Registry/Listing, Registry/Cache/Expiry, Registry/Cached/History, Keys and Sources,
--     Registry/Calls/Invariant, Moves, Steps, Bounds, Work, Progress, Backed and Answers,
--     Registry/Patterns/Matching, Registry/Names/Reading, Registry/Transport/Paths and Tokens,
--     Registry/Credentials/Docker/Hub, Registry/Credentials/Order, Registry/Candidates/Ending,
--     Registry/RateLimits/Documented, Startup/Preferred, Private, Placed and Serving/Ending,
--     Report/Totals, Logging/Fields and Sinks, Http/Monitored/Names, and Http/RateLimiter with
--     Invariant, Entering, Serving, Leaving, Safety and Progress. The files named Examples,
--     HandleExamples, TextExamples, TransportExamples, RateLimitExamples and PlacedExamples apply
--     them to concrete data, some of it in Hook/TestData and Registry/Credentials/TestHost.
--   * Common: Boolean tests, lists, sets of strings, sorting (`keys` of hook.go), string-keyed maps,
--     the order of strings, the parts of strings, Go's int without its bounds, and families that are
--     indexed by a number, with counts and sums over them.
--
-- Parameters of the model: the API server (`SecretReader`, `Environment`), encoding/json (`Codec`,
-- `SecretReader`), filepath.Match (`glob`), the responses of controller-runtime (`Admission`), HTTP
-- (`client` of Registry/Manifests, `transport` of Registry/Transport), net/url, encoding/json,
-- go-http-auth and SHA-1 (`Packages`), the machine with its files and plugins (`Host`), the manager
-- (`fails` of Startup/Serving), prometheus (`Registerer`), the clock (times are arguments), the
-- order in which goroutines end, and the random order of iteration over a Go map, which is the
-- order of an association list.
--
-- Bounds: there is no fuel; each loop is over a list, and the rate limiter and the calls of the
-- cache are relations. An event's counter is an int32 and is kept modulo 2 ^ 32. The reference
-- count of an image and the number of requests in flight are Go ints, which are modelled as
-- integers without bounds, since each increment is one answer of a registry or one caller. Times
-- are natural numbers of nanoseconds, and the lifetime of a token is taken to fit in a
-- time.Duration, as all below 292 years do.
--
-- Not modelled: logging calls, the durations that are observed, a cancellation other than that of
-- ListArchs, and what controller-runtime does behind the calls of cmd/noe. Running a credential
-- plugin, walking a directory and reading a file are parameters. The helpers for tests, the charts
-- and the build have no logic of their own.
pub mod Common
pub mod Kube
pub mod Hook
pub mod Controller
pub mod Registry
pub mod Http
pub mod Metrics
pub mod Startup
pub mod Report
pub mod Logging
