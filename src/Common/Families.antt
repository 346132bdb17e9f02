-- ===== src/Common/Families.antt =====
-- Families indexed by a number, such as the threads of a program: an update at one index, and how
-- many of the first `n` members pass a test.
use Prim.Native.Nat.{ℕ, zero, suc, ◌+◌, ◌*◌, ◌≤◌, ◌<◌}
use mathlib.Core.Path.{◌≡◌, refl, subst}
use mathlib.Core.Logic.{inl, inr}
use mathlib.Core.Bool.{Bool, true, false, not, ◌&&◌}
use native.Mathlib.Omega.{arith}
use noe.Common.Tests.{if◌then◌else◌, nat_eq, Bool-cases}

-- One for a test that passes.
abbrev pub one_if : Bool → ℕ
one_if true = 1
one_if false = 0

-- How many of the numbers below `n` pass the test.
unfoldable pub count : ℕ → (ℕ → Bool) → ℕ
count zero p = 0
count (suc n) p = count n p + one_if (p n)

module _ {ℓ} {A : Type ℓ} where
  abbrev pub update : (ℕ → A) → ℕ → A → ℕ → A
  update f i a j = if nat_eq i j then a else f j

  pub count-update_above :
      (test : ℕ → A → Bool) (n : ℕ) (f : ℕ → A) (i : ℕ) (a : A)
      → n ≤ i
      → count n (λ j. test j (update f i a j)) ≡ count n (λ j. test j (f j))
  unfolding count
  count-update_above test zero f i a h = refl
  count-update_above test (suc n) f i a h = ground (arith, count-update_above test n f i a)

  -- An update moves the count by what the test says of the old member and of the new one.
  pub count-update :
      (test : ℕ → A → Bool) (n : ℕ) (f : ℕ → A) (i : ℕ) (a : A)
      → i < n
      → count n (λ j. test j (update f i a j)) + one_if (test i (f i))
        ≡ count n (λ j. test j (f j)) + one_if (test i a)
  unfolding count
  count-update test zero f i a h = ground arith
  count-update test (suc n) f i a h =
      ground (arith, count-update test n f i a, count-update_above test n f i a)

pub count-le :
    (n : ℕ) (p q : ℕ → Bool) → ((i : ℕ) → i < n → p i ≡ true → q i ≡ true) → count n p ≤ count n q
unfolding count
count-le zero p q h = omega arith
count-le (suc n) p q h =
    ground (arith, h n, count-le n p q (λ i below passes. h i (omega arith) passes))

pub count_zero : (n : ℕ) (p : ℕ → Bool) → ((i : ℕ) → i < n → p i ≡ false) → count n p ≡ 0
unfolding count
count_zero zero p h = refl
count_zero (suc n) p h = ground (arith, h n, count_zero n p (λ i below. h i (omega arith)))

-- A member that passes is counted.
pub count_pos : (n : ℕ) (p : ℕ → Bool) (i : ℕ) → i < n → p i ≡ true → 0 < count n p
unfolding count
count_pos zero p i h passes = ground arith
count_pos (suc n) p i h passes = elim (Bool-cases (nat_eq i n)) [
  | inl last ↦
      let same : i ≡ n = ground arith in
      let passes_last : p n ≡ true = subst (λ j. p j ≡ true) same passes in ground arith
  | inr below ↦ ground (arith, count_pos n p i)
]

pub count_all : (n : ℕ) (p : ℕ → Bool) → ((i : ℕ) → i < n → p i ≡ true) → count n p ≡ n
unfolding count
count_all zero p h = refl
count_all (suc n) p h = ground (arith, h n, count_all n p (λ i below. h i (omega arith)))

-- If some are counted, one passes.
pub count_some : (n : ℕ) (p : ℕ → Bool) → 0 < count n p → (i : ℕ) × ((i < n) × (p i ≡ true))
unfolding count
count_some zero p h = ground arith
count_some (suc n) p h = elim (Bool-cases (p n)) [
  | inl passes ↦ (n, (omega arith, passes))
  | inr fails ↦
      let (i, (below, passes)) = count_some n p (ground arith) in (i, (omega arith, passes))
]

count-split : (n : ℕ) (p q : ℕ → Bool) → count n p ≤ count n (λ i. p i && not (q i)) + count n q
unfolding count
count-split zero p q = omega arith
count-split (suc n) p q = elim (Bool-cases (p n)) [
  | inl passes ↦ elim (Bool-cases (q n)) [
    | inl y ↦ rw (passes, y) (omega (arith, count-split n p q))
    | inr x ↦ rw (passes, x) (omega (arith, count-split n p q))
  ]
  | inr fails ↦ rw fails (omega (arith, count-split n p q))
]

below_other : (q : ℕ → Bool) (b m : ℕ) → q b ≡ false → m < suc b → q m ≡ true → m < b
below_other q b m fails h passes = elim (Bool-cases (nat_eq m b)) [
  | inl same ↦ let e : m ≡ b = ground arith in ground (arith, subst (λ j. q j ≡ true) e passes)
  | inr other ↦ ground arith
]

-- If each that passes is in the class of a number below `b` that passes too, and no class has two
-- members, then not more pass than there are such classes.
pub count-le-classes :
    (n b : ℕ) (p q : ℕ → Bool) (member : ℕ → ℕ → Bool)
    → ((i : ℕ) → i < n → p i ≡ true → (m : ℕ) × ((m < b) × ((q m ≡ true) × (member m i ≡ true))))
    → ((m : ℕ) → count n (member m) ≤ 1)
    → count n p ≤ count b q
unfolding count
count-le-classes n zero p q member h one =
    let none_passes : count n p ≡ 0 = count_zero n p (λ i below. elim (Bool-cases (p i)) [
      | inl passes ↦ absurd (omega (arith, (h i below passes).1.0))
      | inr fails ↦ fails
    ]) in
    omega (arith, none_passes)
count-le-classes n (suc b) p q member h one = elim (Bool-cases (q b)) [
  | inl y ↦
      let rest : count n (λ i. p i && not (member b i)) ≤ count b q =
        count-le-classes n b (λ i. p i && not (member b i)) q member
          (λ i below passes.
            let (m, (m_below, (in_q, is_member))) = h i below (ground arith) in
            (m, (ground arith, (in_q, is_member))))
          one in
      rw y (omega (arith, rest, one b, count-split n p (member b)))
  | inr x ↦
      let rest : count n p ≤ count b q =
        count-le-classes n b p q member
          (λ i below passes.
            let (m, (m_below, (in_q, is_member))) = h i below passes in
            (m, (below_other q b m x m_below in_q, (in_q, is_member))))
          one in
      rw x (omega (arith, rest))
]

-- The sum over the numbers below `n`
unfoldable pub total : ℕ → (ℕ → ℕ) → ℕ
total zero f = 0
total (suc n) f = total n f + f n

module _ {ℓ} {A : Type ℓ} where
  total-update_above :
      (size : A → ℕ) (n : ℕ) (f : ℕ → A) (i : ℕ) (a : A)
      → n ≤ i
      → total n (λ j. size (update f i a j)) ≡ total n (λ j. size (f j))
  unfolding total
  total-update_above size zero f i a h = refl
  total-update_above size (suc n) f i a h = ground (arith, total-update_above size n f i a)

  pub total-update :
      (size : A → ℕ) (n : ℕ) (f : ℕ → A) (i : ℕ) (a : A)
      → i < n
      → total n (λ j. size (update f i a j)) + size (f i) ≡ total n (λ j. size (f j)) + size a
  unfolding total
  total-update size zero f i a h = ground arith
  total-update size (suc n) f i a h =
      ground (arith, total-update size n f i a, total-update_above size n f i a)

pub total_const : (n c : ℕ) → total n (λ i. c) ≡ n * c
unfolding total
total_const zero c = omega arith
total_const (suc n) c = ground (arith, total_const n c)

-- If the sum is positive, one of its members is.
pub total_some : (n : ℕ) (f : ℕ → ℕ) → 0 < total n f → (i : ℕ) × ((i < n) × (0 < f i))
unfolding total
total_some zero f h = ground arith
total_some (suc n) f h = elim (Bool-cases (nat_eq (f n) 0)) [
  | inl none_last ↦
      let (i, (below, found)) = total_some n f (ground arith) in (i, (omega arith, found))
  | inr last ↦ (n, (omega arith, ground arith))
]

pub total_none : (n : ℕ) (f : ℕ → ℕ) → total n f ≡ 0 → (i : ℕ) → i < n → f i ≡ 0
unfolding total
total_none zero f h i below = ground arith
total_none (suc n) f h i below = elim (Bool-cases (nat_eq i n)) [
  | inl last ↦ let same : i ≡ n = ground arith in rw same (omega arith)
  | inr other ↦ total_none n f (omega arith) i (ground arith)
]
