-- ===== src/Startup/Placed.antt =====
-- From the flags to the node: the hook and the registry that main configures, together.
use noe.Common.{
  ℕ, ◌+◌, ◌*◌, ◌<◌, ◌≤◌, Bool, true, false, ◌&&◌, String, Option, none, some, List, [], ◌∷◌, ◌++◌,
  ◌≡◌, refl, sym, ◌∙◌, ap, subst, arith, ◌==◌, eq_iff, any, all, is_some, Option-cases, Bool-cases,
  inl, inr, ◌⊎◌, and_elim,
}
use noe.Common.Maps.{Map, lookup}
use noe.Common.Sets.{contains}
use noe.Common.Strings.Parts.{lacks}
use noe.Registry.Cache.{Cache}
use noe.Registry.Cached.History.{Stored, platforms_inj}
use noe.Registry.Cached.Keys.{ends_object}
use noe.Registry.Cached.Sources.{Asked, list_cached, list_cached_answered}
use noe.Kube.{PodSpec, Requirement, Node}
use noe.Kube.Scheduling.{admits}
use noe.Hook.Labels.Placement.{required_selector}
use noe.Hook.{Platform, Handler, arch_key}
use noe.Hook.Secrets.{SecretReader, get_image_pull_secret}
use noe.Hook.Selection.{get_container_images}
use noe.Hook.Architectures.{Arrival, ask, is_usable}
use noe.Hook.Architectures.Members.{offers, arrival_offers}
use noe.Hook.Architectures.Order.{all-Runs}
use noe.Hook.Update.{Answers, update_pod_spec}
use noe.Hook.Update.Placement.{Constrains, update_pod_spec_runs_everywhere}
use noe.Registry.{
  ManifestRef, ManifestListResponse, decoded, Response, Fetched, response, AuthenticationToken,
  Query,
}
use noe.Registry.Names.{ImageName, parse_image}
use noe.Registry.Manifests.{
  ArchListResult, is_manifest_list, is_wanted, fetch_pointed, fetch_first, list_archs_with_auth,
  Listed, platforms, list_error, defaulted, try_candidates, list_archs,
}
use noe.Registry.Listing.{IsReordering, is_served, is_failing, list_archs_with_auth_platforms}
use noe.Registry.Credentials.Authenticators.{authenticate_all}
use noe.Registry.Plain.{list_named, plain_list_archs}
use noe.Startup.{Started}

-- The registry as the hook reads it
unfoldable pub answer_of : Listed → Option (List Platform)
answer_of (platforms ps) = some ps
answer_of (list_error err) = none

all-contains :
    (p : String → Bool) (xs : List String) (x : String)
    → all p xs ≡ true
    → contains xs x ≡ true
    → p x ≡ true
unfolding contains
all-contains p [] x h m = ground arith
all-contains p (y ∷ xs) x h m = elim (Bool-cases (y == x)) [
  | inl same ↦ subst (λ z. p z ≡ true) ((eq_iff y x).0 same) (and_elim (p y) (all p xs) h).0
  | inr other ↦ all-contains p xs x (and_elim (p y) (all p xs) h).1 (ground arith)
]

-- The candidates that fail are passed over.
after_failing :
    (attempt : AuthenticationToken → List Platform × Option String) (err : Option String)
    (failing : List AuthenticationToken) (auth : AuthenticationToken)
    (rest : List AuthenticationToken)
    → all (λ c. is_some (attempt c).1) failing ≡ true
    → (attempt auth).1 ≡ none
    → try_candidates attempt err (failing ++ auth ∷ rest) ≡ platforms (defaulted (attempt auth).0)
unfolding try_candidates
after_failing attempt err [] auth rest h n = rw (n, try_candidates) refl
after_failing attempt err (c ∷ failing) auth rest h n = elim (Option-cases (attempt c).1) [
  | inl fine ↦ ground (arith, fine)
  | inr (e, fails) ↦
      rw (fails, try_candidates) (after_failing attempt (some e) failing auth rest (ground arith) n)
]

offers-ask :
    (k : Handler) (a : String) (list_archs : String → String → Option (List Platform))
    (secret image : String) (ps : List Platform)
    → list_archs secret image ≡ some ps
    → arrival_offers k a (ask list_archs secret image) ≡ offers k a ps
unfolding ask
offers-ask k a list_archs secret image ps e = rw (e, ask) refl

offers-defaulted :
    (k : Handler) (a : String) (ps : List Platform)
    → offers k a (defaulted ps) ≡ true
    → (offers k a ps ≡ true) ⊎ ((any (λ p. true) ps ≡ false) × (a ≡ "amd64"))
unfolding defaulted
offers-defaulted k a [] h = inr (refl, ground (arith, eq_iff "amd64" a))
offers-defaulted k a (p ∷ ps) h = inl h

-- 1*time.Hour
abbrev pub hour : ℕ
hour = 3600 * 1000000000

-- The PlainRegistry that main configures, over what the client answers at one time.
module _ (glob : String → String → Option Bool) (client : Query → Fetched)
    (order : List ArchListResult → List ArchListResult) (s : Started) (secret : String) where
  -- The image's name as the registry reads it
  abbrev pub read_name : String → ImageName
  read_name image = parse_image glob s.registry.proxies image

  abbrev pub attempt : ImageName → AuthenticationToken → List Platform × Option String
  attempt n =
      list_archs_with_auth client order s.registry.schedulable_architectures n.registry n.image
        n.tag

  -- A request for a manifest that the image's list names
  abbrev pub pointed : ImageName → AuthenticationToken → ManifestRef → Fetched
  pointed n =
      fetch_pointed client order s.registry.schedulable_architectures n.registry n.image n.tag

  -- The first candidate that does not fail gets the manifest list `b` for the name, and each of the
  -- wanted manifests is fetched or reported as not found.
  pub record Finds (n : ImageName) (auth : AuthenticationToken) (b : ManifestListResponse)
      : Type 0 where
    pub failing : List AuthenticationToken
    pub rest : List AuthenticationToken
    pub candidates :
        authenticate_all s.registry.authenticator secret n.registry n.image ≡ failing ++ auth ∷ rest
    pub failed : all (λ c. is_some (attempt n c).1) failing ≡ true
    pub answer : Response
    pub fetched :
        fetch_first client order s.registry.schedulable_architectures n.registry n.image n.tag auth
        ≡ response answer
    pub ok : answer.status_code ≡ 200
    pub body : answer.body ≡ decoded b
    pub is_list : is_manifest_list answer.content_type ≡ true
    pub complete :
        any
          (λ m. is_wanted s.registry.schedulable_architectures m && is_failing (pointed n auth m))
          b.manifests
        ≡ false

  -- A wanted manifest of the list that is fetched, with a platform that passes the test
  abbrev pub has_manifest :
      ImageName → AuthenticationToken → (Platform → Bool) → ManifestListResponse → Bool
  has_manifest n auth p b =
      any
        (λ m.
          is_wanted s.registry.schedulable_architectures m
          && (is_served (pointed n auth m) && p m.platform))
        b.manifests

  module _ (reordering : IsReordering order) (image : String) (auth : AuthenticationToken)
      (b : ManifestListResponse) (finds : Finds (read_name image) auth b) where
    found_platforms :
        (p : Platform → Bool)
        → ((attempt (read_name image) auth).1 ≡ none)
          × (any p (attempt (read_name image) auth).0 ≡ has_manifest (read_name image) auth p b)
    found_platforms p =
        list_archs_with_auth_platforms client order s.registry.schedulable_architectures
          (read_name image).registry (read_name image).image (read_name image).tag auth finds.answer
          b finds.fetched finds.ok finds.body finds.is_list reordering p finds.complete

    found_answer :
        plain_list_archs glob client order s.registry secret image
        ≡ platforms (defaulted (attempt (read_name image) auth).0)
    unfolding plain_list_archs list_named list_archs
    found_answer =
        ap (try_candidates (attempt (read_name image)) none) finds.candidates
        ∙ after_failing (attempt (read_name image)) none finds.failing auth finds.rest finds.failed
            (found_platforms (λ p. true)).0

    -- What the image offers by ListArchs is served in its list, or is the default.
    offered_manifest :
        (k : Handler) (a : String)
        → offers k a (defaulted (attempt (read_name image) auth).0) ≡ true
        → (has_manifest (read_name image) auth (λ p. is_usable k p && p.architecture == a) b ≡ true)
          ⊎ ((has_manifest (read_name image) auth (λ p. true) b ≡ false) × (a ≡ "amd64"))
    offered_manifest k a h = elim (offers-defaulted k a (attempt (read_name image) auth).0 h) [
      | inl o ↦ inl (sym (found_platforms (λ p. is_usable k p && p.architecture == a)).1 ∙ o)
      | inr (e, same) ↦ inr (sym (found_platforms (λ p. true)).1 ∙ e, same)
    ]

-- The registry that main gives to the hook: a CachedRegistry with entries of one hour around the
-- PlainRegistry, over a client whose answers may change with the time.
module _ (glob : String → String → Option Bool) (client : ℕ → Query → Fetched)
    (order : List ArchListResult → List ArchListResult) (s : Started) where
  abbrev pub plain_answers : ℕ → String → String → Listed
  plain_answers t secret image = plain_list_archs glob (client t) order s.registry secret image

  -- What a request of the hook meets: the time of its Load, that of its Store on a miss, and a cache
  -- that earlier requests and clean-ups leave.
  pub record Visit : Type 0 where
    pub now : ℕ
    pub stored : ℕ
    pub log : List Stored
    pub cache : Cache (List Platform)
    pub reached : Asked plain_answers hour log cache
    pub later : now ≤ stored

  -- The answers that the goroutines for the images get
  abbrev pub hook_registry : (String → Visit) → String → String → Option (List Platform)
  hook_registry visits secret image = answer_of (
      list_cached plain_answers hour (visits image).now (visits image).stored secret image
        (visits image).cache)

-- The hook and the registry that main gives it, the cached one, together, for requests that meet any
-- states of the cache that clean-ups and requests, one after another, lead to, these with pull secrets
-- that are empty or end with a brace, for images without one: for a pod that is not scheduled, selects no architecture, has a common one,
-- carries no label of matchNodeLabels and has no required node affinity, whose pull secret is empty
-- or ends with a brace, every node that the scheduler may choose has an architecture; and for each
-- image of the pod without a brace for which, at each time from one hour before the request on, the
-- first candidate that does not fail gets a manifest list of which each wanted manifest is fetched or
-- reported as not found, there is such a time, less than one hour before the request or later, at
-- which the list had a wanted manifest that was fetched, of this architecture and for an operating
-- system that the hook accepts; or else at which no wanted manifest of the list was fetched, and the
-- architecture is amd64.
pub placed_on_listed :
    (glob : String → String → Option Bool) (client : ℕ → Query → Fetched)
    (order : List ArchListResult → List ArchListResult) (s : Started)
    (visits : String → Visit glob client order s) (secrets : SecretReader) (ns : String)
    (labels : Map String) (spec : PodSpec) (arrivals : List Arrival)
    (others : Requirement → Node → Bool) (node : Node) (image : String)
    (auth : ℕ → AuthenticationToken) (b : ℕ → ManifestListResponse)
    → IsReordering order
    → Answers (hook_registry glob client order s visits) secrets ns spec arrivals
    → Constrains s.handler labels spec arrivals
    → required_selector spec.affinity ≡ none
    → admits others node (update_pod_spec s.handler ns labels secrets spec arrivals).spec ≡ true
    → contains (get_container_images (spec.containers ∷ spec.init_containers ∷ [])) image ≡ true
    → ends_object (get_image_pull_secret secrets ns spec).0 ≡ true
    → lacks b'}' image ≡ true
    → let secret = (get_image_pull_secret secrets ns spec).0 in
      let name = parse_image glob s.registry.proxies image in
      ((t : ℕ)
        → (visits image).now < t + hour
        → Finds glob (client t) order s secret name (auth t) (b t))
      → (a : String) × (lookup arch_key node.labels ≡ some a)
        × ((t : ℕ) × (((visits image).now < t + hour)
              × ((has_manifest glob
                      (client t)
                      order
                      s
                      secret
                      name
                      (auth t)
                      (λ p. is_usable s.handler p && p.architecture == a)
                      (b t)
                    ≡ true)
                  ⊎ ((has_manifest glob (client t) order s secret name (auth t) (λ p. true) (b t)
                        ≡ false)
                      × (a ≡ "amd64")))))
placed_on_listed glob client order s visits secrets ns labels spec arrivals others node image auth b
      reordering runs c e admitted member closed braceless finds =
    let secret = (get_image_pull_secret secrets ns spec).0 in
    let v = visits image in
    let soon : v.now < v.stored + hour = omega (arith, v.later) in
    let (a, found, offered) =
      update_pod_spec_runs_everywhere s.handler ns labels secrets spec arrivals others node c e
        admitted in
    let asked : arrival_offers s.handler a
          (ask (hook_registry glob client order s visits) secret image)
        ≡ true =
      all-contains
        (λ i. arrival_offers s.handler a (ask (hook_registry glob client order s visits) secret i))
        _ image (sym (all-Runs (arrival_offers s.handler a) runs) ∙ offered) member in
    let plain = λ (t : ℕ) (h : v.now < t + hour).
      found_answer glob (client t) order s secret reordering image (auth t) (b t) (finds t h) in
    let (t, (ps, (fresh, (answered, returned)))) =
      list_cached_answered (plain_answers glob client order s) hour v.now v.stored secret image
        v.log v.cache v.reached closed braceless soon _ (plain v.stored soon) in
    let same = platforms_inj ps _ (sym answered ∙ plain t fresh) in
    let given : hook_registry glob client order s visits secret image ≡ some ps =
      ap answer_of returned ∙ (unfold answer_of in refl) in
    (
      a,
      found,
      (
        t,
        (
          fresh,
          offered_manifest glob (client t) order s secret reordering image (auth t) (b t)
              (finds t fresh) s.handler a
              (subst (λ qs. offers s.handler a qs ≡ true) same
                (sym (
                    offers-ask s.handler a (hook_registry glob client order s visits) secret image
                      ps given)
                  ∙ asked)),
        ),
      ),
    )
