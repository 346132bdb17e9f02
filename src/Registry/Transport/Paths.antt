-- ===== src/Registry/Transport/Paths.antt =====
-- The image that the transport reads from the path of a request.
use Prim.Native.Char.{Char, code}
use Prim.Native.String.{[], ◌∷◌}
use text.Mathlib.TextLemmas.{nil-append, cons-append, append_assoc as append_text}
use text.Mathlib.TextEquality.{Char-path}
use noe.Common.{
  ℕ, Bool, true, ◌&&◌, ◌||◌, ◌==◌, leb, String, some, List, ◌++◌, ◌≡◌, refl, sym, ◌∙◌, ap, subst,
  arith, nat_eq, if◌then◌else◌, inl, inr, Bool-cases,
}
use noe.Common.Strings.Parts.{split, lacks, split-lacks, every, every-append}
use noe.Hook.Events.{◌<>◌}
use noe.Registry.{Query}
use noe.Registry.Requests.{
  join, joined, drop_last_two, middle, image_of, HttpRequest, Packages, authorization_of,
  manifest_url, manifest_request, new_get_manifest_request,
}

split_some :
    (separator : ℕ) (s : String)
    → (part : String) × ((parts : List String) × (split separator s ≡ List.◌∷◌ part parts))
unfolding split
split_some separator [] = ([], (List.[], refl))
split_some separator (c ∷ s) =
    let (part, (parts, e)) = split_some separator s in
    elim (Bool-cases (nat_eq (code c) separator)) [
      | inl found ↦ ([], (split separator s, rw found refl))
      | inr other ↦ (c ∷ part, (parts, rw (other, e) refl))
    ]

-- A text that ends at a separator is split before it.
split-append_all :
    (separator : ℕ) (c : Char) (s t : String)
    → nat_eq (code c) separator ≡ true
    → split separator (s <> (c ∷ t)) ≡ split separator s ++ split separator t
unfolding split
split-append_all separator c [] t h = rw (nil-append (c ∷ t)) (ground arith)
split-append_all separator c (d ∷ s) t h =
    let (part, (parts, e)) = split_some separator s in
    rw (cons-append d s (c ∷ t), split-append_all separator c s t h, e)
      (elim (Bool-cases (nat_eq (code d) separator)) [
        | inl found ↦ rw found refl
        | inr other ↦ rw other refl
      ])

join-prepend :
    (c : Char) (part : String) (parts : List String)
    → join (List.◌∷◌ (c ∷ part) parts) ≡ c ∷ join (List.◌∷◌ part parts)
unfolding join
join-prepend c part List.[] = refl
join-prepend c part (List.◌∷◌ next parts) = cons-append c part ("/" <> join (List.◌∷◌ next parts))

slash-append : (c : Char) (s : String) → nat_eq (code c) b'/' ≡ true → "/" <> s ≡ c ∷ s
slash-append c s h =
    cons-append _ [] s ∙ rw (nil-append s) (ap (λ d. d ∷ s) (sym (Char-path c _ (ground arith))))

join-split : (s : String) → join (split b'/' s) ≡ s
unfolding join split
join-split [] = refl
join-split (c ∷ s) =
    let (part, (parts, e)) = split_some b'/' s in
    let whole : join (List.◌∷◌ part parts) ≡ s = ap join (sym e) ∙ join-split s in
    elim (Bool-cases (nat_eq (code c) b'/')) [
      | inl found ↦ rw (found, e, whole) (nil-append ("/" <> s) ∙ slash-append c s found)
      | inr other ↦ rw (other, e) (join-prepend c part parts ∙ ap (λ t. c ∷ t) whole)
    ]

drop_last_two-append :
    (parts : List String) (x y : String)
    → drop_last_two (parts ++ List.◌∷◌ x (List.◌∷◌ y List.[])) ≡ some parts
unfolding drop_last_two
drop_last_two-append List.[] x y = refl
drop_last_two-append (List.◌∷◌ a List.[]) x y = refl
drop_last_two-append (List.◌∷◌ a (List.◌∷◌ b List.[])) x y = refl
drop_last_two-append (List.◌∷◌ a (List.◌∷◌ b (List.◌∷◌ c parts))) x y =
    rw (drop_last_two-append (List.◌∷◌ b (List.◌∷◌ c parts)) x y) refl

split_slash : (s t : String) → split b'/' (s <> ("/" <> t)) ≡ split b'/' s ++ split b'/' t
split_slash s t = rw (cons-append _ [] t, nil-append t) (split-append_all b'/' _ s t refl)

-- The path that newGetManifestRequest writes into the URL
abbrev pub manifest_path : String → String → String
manifest_path image tag = "/v2/" <> (image <> ("/manifests/" <> tag))

-- The parts of the path
manifest_path-parts :
    (image tag : String)
    → manifest_path image tag
      ≡ "" <> ("/" <> ("v2" <> ("/" <> (image <> ("/" <> ("manifests" <> ("/" <> tag)))))))
manifest_path-parts image tag =
    let tail = "/" <> ("manifests" <> ("/" <> tag)) in
    let tail_same : ("/manifests/" <> tag) ≡ tail =
      append_text "/" "manifests/" tag ∙ ap (λ t. "/" <> t) (append_text "manifests" "/" tag) in
    ap (λ t. "/v2/" <> (image <> t)) tail_same
    ∙ append_text "/" "v2/" (image <> tail)
    ∙ ap (λ t. "/" <> t) (append_text "v2" "/" (image <> tail))
    ∙ sym (nil-append ("/" <> ("v2" <> ("/" <> (image <> tail)))))

split-manifest_path :
    (image tag : String)
    → lacks b'/' tag ≡ true
    → split b'/' (manifest_path image tag)
      ≡ List.◌∷◌ ""
          (List.◌∷◌ "v2" (split b'/' image ++ List.◌∷◌ "manifests" (List.◌∷◌ tag List.[])))
unfolding split
split-manifest_path image tag clean =
    rw
      (
        manifest_path-parts image tag,
        split_slash "" ("v2" <> ("/" <> (image <> ("/" <> ("manifests" <> ("/" <> tag)))))),
        split_slash "v2" (image <> ("/" <> ("manifests" <> ("/" <> tag)))),
        split_slash image ("manifests" <> ("/" <> tag)),
        split_slash "manifests" tag,
        split-lacks b'/' tag clean,
      )
      refl

image_of-manifest_path :
    (image tag : String) → lacks b'/' tag ≡ true → image_of (manifest_path image tag) ≡ some image
unfolding middle image_of
image_of-manifest_path image tag clean =
    subst (λ parts. joined (middle parts) ≡ some image) (sym (split-manifest_path image tag clean))
      (rw (drop_last_two-append (split b'/' image) "manifests" tag, join-split image) refl)

abbrev within : ℕ → ℕ → ℕ → Bool
within low high n = leb low n && leb n high

abbrev pub is_digit : ℕ → Bool
is_digit n = within b'0' b'9' n

-- A letter, a digit, a dash or a dot
abbrev is_host_char : ℕ → Bool
is_host_char n =
    is_digit n || within b'a' b'z' n || within b'A' b'Z' n || nat_eq n b'-' || nat_eq n b'.'

-- One of these, or an underscore, a slash or a colon: no character that an URL escapes or ends at
abbrev pub is_path_char : ℕ → Bool
is_path_char n = is_host_char n || nat_eq n b'_' || nat_eq n b'/' || nat_eq n b':'

-- A host, and a port if there is one
unfoldable pub is_authority : String → Bool
is_authority [] = true
is_authority (c ∷ s) =
    let rest = is_authority s in
    if nat_eq (code c) b':' then every is_digit s else is_host_char (code c) && rest

-- What url.Parse documents, scheme://host/path, for a path without characters that have a meaning
-- in an URL.
pub record ReadsUrls {B : Type 0} (lib : Packages B) : Type 0 where
  pub reads :
      (scheme authority rest : String)
      → (scheme == "http" || scheme == "https") ≡ true
      → is_authority authority ≡ true
      → every is_path_char rest ≡ true
      → (base : String) × (lib.parse_url (scheme <> ("://" <> (authority <> ("/" <> rest))))
          ≡ some (record { base = base; path = "/" <> rest; query = List.[] }))

written : (every is_path_char "v2/" ≡ true) × (every is_path_char "/manifests/" ≡ true)
unfolding every
written = (refl, refl)

plain_rest :
    (image tag : String)
    → every is_path_char image ≡ true
    → every is_path_char tag ≡ true
    → every is_path_char ("v2/" <> (image <> ("/manifests/" <> tag))) ≡ true
plain_rest image tag i t =
    rw
      (
        every-append is_path_char "v2/" (image <> ("/manifests/" <> tag)),
        every-append is_path_char image ("/manifests/" <> tag),
        every-append is_path_char "/manifests/" tag,
        written.0,
        written.1,
        i,
        t,
      )
      refl

-- For a scheme that is http or https, a host of letters, digits, dashes and dots with or without a
-- port, and an image and a tag or digest of letters, digits, dashes, dots, underscores, colons and,
-- for the image, slashes, newGetManifestRequest makes a request, and the transport reads just this
-- image again from its path.
pub image_of-new_get_manifest_request :
    {B : Type 0} (lib : Packages B) (scheme : String) (q : Query)
    → ReadsUrls lib
    → (scheme == "http" || scheme == "https") ≡ true
    → is_authority q.registry ≡ true
    → every is_path_char q.image ≡ true
    → every is_path_char q.reference ≡ true
    → lacks b'/' q.reference ≡ true
    → (r : HttpRequest) × ((new_get_manifest_request lib scheme q ≡ some r)
        × (image_of r.url.path ≡ some q.image))
unfolding new_get_manifest_request manifest_request manifest_url
image_of-new_get_manifest_request lib scheme q laws known host image tag clean =
    let rest = "v2/" <> (q.image <> ("/manifests/" <> q.reference)) in
    let path : manifest_path q.image q.reference ≡ "/" <> rest = append_text "/" "v2/" _ in
    let (base, read) =
      laws.reads scheme q.registry rest known host (plain_rest q.image q.reference image tag) in
    (
      record {
        method = "GET";
        url = record { base = base; path = "/" <> rest; query = List.[] };
        authorization = authorization_of q.auth;
        accept_headers = q.accept_headers;
      },
      (
        ap (λ p. manifest_request q (lib.parse_url (scheme <> ("://" <> (q.registry <> p))))) path
            ∙ ap (manifest_request q) read,
        ap image_of (sym path) ∙ image_of-manifest_path q.image q.reference clean,
      ),
    )
