-- ===== src/Base/Search.antt =====
-- The loop `for (i = first; i < first + rounds; i++) if (test(i)) return i;`, which the kernel uses
-- to find a free slot, a page, a socket, a descriptor or an entry.
use Prim.Native.Nat.{ℕ, zero, suc, ◌+◌, ◌<◌, ◌≤◌}
use mathlib.Core.Path.{◌≡◌, ap, ◌∙◌}
use mathlib.Core.Logic.{inl, inr}
use mathlib.Core.Bool.{Bool, true, false}
use mathlib.Core.Option.{Option, none, some}
use native.Mathlib.Omega.{arith}
use native.Mathlib.Decide.{ℕ_discrete}
use project_orange_tea.Base.Tests.{ltb, if◌then◌else◌, Bool-cases, Option-cases}

unfoldable pub first_where : (ℕ → Bool) → ℕ → ℕ → Option ℕ
first_where test zero i = none
first_where test (suc rounds) i = if test i then some i else first_where test rounds (suc i)

-- `j` is the least number from `i` on, below `n`, that passes the test.
pub record IsFirst (test : ℕ → Bool) (i n j : ℕ) : Type 0 where
  pub holds : test j ≡ true
  pub above : i ≤ j
  pub below : j < n
  pub before : (m : ℕ) → i ≤ m → m < j → test m ≡ false

pub first_where-IsFirst :
    (test : ℕ → Bool) (rounds i j : ℕ)
    → first_where test rounds i ≡ some j
    → IsFirst test i (i + rounds) j
unfolding first_where
first_where-IsFirst test zero i j h = cc
first_where-IsFirst test (suc k) i j h = elim (Bool-cases (test i)) [
  | inl hit ↦ ground arith
  | inr miss ↦
      let rest = first_where-IsFirst test k (suc i) j (rw miss at h) in
      record {
        holds = rest.holds;
        above = omega arith;
        below = omega arith;
        before = λ m lo hi. elim (ℕ_discrete m i) [
          | yes e ↦ rw e miss
          | no ne ↦ rest.before m (omega arith) hi
        ];
      }
]

pub first_where-none :
    (test : ℕ → Bool) (rounds i m : ℕ)
    → first_where test rounds i ≡ none
    → i ≤ m
    → m < i + rounds
    → test m ≡ false
unfolding first_where
first_where-none test zero i m h lo hi = absurd (omega arith)
first_where-none test (suc k) i m h lo hi = elim (Bool-cases (test i)) [
  | inl hit ↦ ground arith
  | inr miss ↦ elim (ℕ_discrete m i) [
    | yes e ↦ rw e miss
    | no ne ↦ first_where-none test k (suc i) m (rw miss at h) (omega arith) (omega arith)
  ]
]

-- The search succeeds where some number passes the test.
pub first_where_total :
    (test : ℕ → Bool) (rounds i m : ℕ)
    → i ≤ m
    → m < i + rounds
    → test m ≡ true
    → (j : ℕ) × (first_where test rounds i ≡ some j)
first_where_total test k i m lo hi h = elim (Option-cases (first_where test k i)) [
  | inl e ↦ absurd (ground (arith, first_where-none test k i m e lo hi))
  | inr found ↦ found
]

-- The search gives the first number that passes.
pub first_where_at :
    (test : ℕ → Bool) (rounds i k : ℕ)
    → i ≤ k
    → k < i + rounds
    → test k ≡ true
    → ((m : ℕ) → i ≤ m → m < k → test m ≡ false)
    → first_where test rounds i ≡ some k
first_where_at test rounds i k lo hi h before =
    let (j, found) = first_where_total test rounds i k lo hi h in
    let f : IsFirst test i (i + rounds) j = first_where-IsFirst test rounds i j found in
    elim (ℕ_discrete j k) [
      | yes e ↦ found ∙ ap some e
      | no ne ↦ elim (Bool-cases (ltb j k)) [
        | inl less ↦ absurd (ground (arith, before j, f.holds, f.above))
        | inr more ↦ absurd (ground (arith, f.before k, h))
      ]
    ]
