-- ===== src/Registry.antt =====
-- pkg/registry: the client of image registries and its cache. The HTTP transport, the decoding of
-- a body and the authenticators are parameters.
pub mod Cache
pub mod Cached
pub mod Manifests
pub mod Listing
pub mod Patterns
pub mod Names
pub mod Requests
pub mod Transport
pub mod Credentials
pub mod Options
pub mod RateLimits
pub mod Candidates
pub mod Calls
pub mod Plain
mod Examples
mod TextExamples
mod TransportExamples
mod RateLimitExamples
use noe.Common.{ℕ, String, List}
use noe.Hook.{Platform}

-- registryManifestRef
pub record ManifestRef : Type 0 where
  pub platform : Platform
  pub digest : String

-- registryManifestListResponse, with the fields that are read
pub record ManifestListResponse : Type 0 where
  pub architecture : String
  pub manifests : List ManifestRef

-- What json.Decoder makes of a body.
pub data Body : Type 0 where
  undecodable : String → Body
  decoded : ManifestListResponse → Body

-- http.Response, with the parts that are read
pub record Response : Type 0 where
  pub status_code : ℕ
  pub content_type : String
  pub body : Body

-- What client.Do returns.
pub data Fetched : Type 0 where
  no_response : String → Fetched
  response : Response → Fetched

-- AuthenticationToken, with the provider that its reference names
pub record AuthenticationToken : Type 0 where
  pub kind : String
  pub provider : String
  pub token : String

-- The request of getImageManifest
pub record Query : Type 0 where
  pub auth : AuthenticationToken
  pub registry : String
  pub image : String
  pub reference : String
  pub accept_headers : List String
