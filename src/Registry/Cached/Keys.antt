-- ===== src/Registry/Cached/Keys.antt =====
-- The keys of CachedRegistry: a pull secret and an image can be read back from them.
use Prim.Native.Char.{Char, code}
use Prim.Native.String.{String, [], ◌∷◌}
use text.Mathlib.TextLemmas.{nil-append, cons-append}
use noe.Common.{
  ℕ, ◌<◌, Bool, true, false, Option, none, if◌then◌else◌, ◌≡◌, refl, sym, ◌∙◌, ap, subst, arith,
  nat_eq, List, some,
}
use noe.Common.Strings.Parts.{lacks, lacks-append}
use noe.Hook.Events.{◌<>◌}
use noe.Kube.{PodSpec}
use noe.Hook.Secrets.{DockerConfig, SecretReader, encoded, get_image_pull_secret}
use noe.Registry.Cache.{Loaded}
use noe.Registry.Cached.{cache_key}
use noe.Registry.Calls.{System, Event, Reach, returned}
use noe.Registry.Calls.Answers.{returned_answers}
use noe.Registry.Calls.Backed.{value_of, IsStored}

-- A text that is empty or ends with a closing brace, as encoding/json writes an object
abbrev pub ends_object : String → Bool
ends_object [] = true
ends_object (c ∷ []) = nat_eq (code c) b'}'
ends_object (c ∷ d ∷ s) = ends_object (d ∷ s)

ends-tail : (c : Char) (s : String) → ends_object (c ∷ s) ≡ true → ends_object s ≡ true
ends-tail c [] h = refl
ends-tail c (d ∷ s) h = h

-- A text of two characters or more that ends so has a brace after the first one; of one, it is one.
has_brace : (c : Char) (s : String) → ends_object (c ∷ s) ≡ true → lacks b'}' (c ∷ s) ≡ false
unfolding lacks
has_brace c [] h = ground arith
has_brace c (d ∷ s) h = ground (arith, has_brace d s h)

cons_inj : (c d : Char) (s t : String) → c ∷ s ≡ d ∷ t → (c ≡ d) × (s ≡ t)
cons_inj c d s t h = ground arith

colon : (i : String) → ":" <> i ≡ ":" ∷ i
colon i = cons-append ":" [] i ∙ ap (λ t. ":" ∷ t) (nil-append i)

-- Where the colon is another one, the image has a brace.
crossing :
    (i j : String) (d : Char) (t : String)
    → ends_object (d ∷ t) ≡ true
    → lacks b'}' i ≡ true
    → ":" ∷ i ≡ d ∷ (t <> (":" <> j))
    → ⊥
unfolding lacks
crossing i j d t e l h =
    let (first, rest) = cons_inj ":" d i (t <> (":" <> j)) h in
    let brace : lacks b'}' (":" ∷ t) ≡ false =
      subst (λ c. lacks b'}' (c ∷ t) ≡ false) (sym first) (has_brace d t e) in
    let none_there : lacks b'}' (t <> (":" <> j)) ≡ true =
      subst (λ x. lacks b'}' x ≡ true) rest l in
    let split_there = lacks-append b'}' t (":" <> j) in ground arith

key_inj :
    (s t i j : String)
    → ends_object s ≡ true
    → ends_object t ≡ true
    → lacks b'}' i ≡ true
    → lacks b'}' j ≡ true
    → s <> (":" <> i) ≡ t <> (":" <> j)
    → (s ≡ t) × (i ≡ j)
key_inj [] [] i j e f l m h = (
  refl,
  (cons_inj ":" ":" i j
      (sym (colon i) ∙ sym (nil-append (":" <> i)) ∙ h ∙ nil-append (":" <> j) ∙ colon j)).1,
)
key_inj [] (d ∷ t) i j e f l m h = absurd (
    crossing i j d t f l
      (sym (colon i) ∙ sym (nil-append (":" <> i)) ∙ h ∙ cons-append d t (":" <> j)))
key_inj (c ∷ s) [] i j e f l m h = absurd (
    crossing j i c s e m
      (sym (colon j) ∙ sym (nil-append (":" <> j)) ∙ sym h ∙ cons-append c s (":" <> i)))
key_inj (c ∷ s) (d ∷ t) i j e f l m h =
    let (first, rest) =
      cons_inj c d (s <> (":" <> i)) (t <> (":" <> j))
        (sym (cons-append c s (":" <> i)) ∙ h ∙ cons-append d t (":" <> j)) in
    let (same, images) = key_inj s t i j (ends-tail c s e) (ends-tail d t f) l m rest in
    (rw (first, same) refl, images)

-- Two requests have the same key only if they have the same pull secret and the same image, if the
-- secrets are empty or end with a brace and the images have none.
pub cache_key_inj :
    (s t i j : String)
    → ends_object s ≡ true
    → ends_object t ≡ true
    → lacks b'}' i ≡ true
    → lacks b'}' j ≡ true
    → cache_key s i ≡ cache_key t j
    → (s ≡ t) × (i ≡ j)
unfolding cache_key
cache_key_inj s t i j e f l m h = key_inj s t i j e f l m h

-- However requests with image pull secrets that are empty or end with a brace, for images without
-- a brace, and clean-ups interleave, the platforms that a request has returned were answered to a request
-- with the same pull secret for the same image: no other pod's credentials show in an answer.
pub returned_same_credentials :
    {A : Type 0} (n : ℕ) (secrets images : ℕ → String) {duration : ℕ} {done : List (Event A)}
    {s : System A} (i : ℕ) (r : Loaded A) (v : A)
    → ((j : ℕ) → ends_object (secrets j) ≡ true)
    → ((j : ℕ) → lacks b'}' (images j) ≡ true)
    → Reach n (λ j. cache_key (secrets j) (images j)) duration done s
    → i < n
    → s.callers i ≡ returned r
    → value_of r ≡ some v
    → (j : ℕ) × ((secrets j ≡ secrets i)
        × ((images j ≡ images i) × ((t : ℕ) × IsStored j t v done)))
returned_same_credentials n secrets images i r v closed braceless run below e h =
    let (j, (same, stored)) =
      returned_answers n (λ j. cache_key (secrets j) (images j)) i r v run below e h in
    let (secret, image) =
      cache_key_inj (secrets j) (secrets i) (images j) (images i) (closed j) (closed i)
        (braceless j) (braceless i) same in
    (j, (secret, (image, stored)))

encoded-ends_object :
    (empty : Bool) (o : Option String)
    → ((text : String) → o ≡ some text → ends_object text ≡ true)
    → ends_object (if empty then "" else encoded o) ≡ true
unfolding encoded
encoded-ends_object true o h = refl
encoded-ends_object false none h = refl
encoded-ends_object false (some text) h = h text refl

-- The pull secret of a pod is such a text, if encoding/json writes the configuration as an object.
pub get_image_pull_secret-ends_object :
    (r : SecretReader) (ns : String) (spec : PodSpec)
    → ((cfg : DockerConfig) (text : String) → r.marshal cfg ≡ some text → ends_object text ≡ true)
    → ends_object (get_image_pull_secret r ns spec).0 ≡ true
unfolding get_image_pull_secret
get_image_pull_secret-ends_object r ns spec h = encoded-ends_object _ _ (h _)
