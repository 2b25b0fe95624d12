-- ===== src/Net/Stack/Firewall.antt =====
-- src/net/config/network_stack.c: the firewall decides by the first rule that applies.
use native.Mathlib.Decide.{ℕ_discrete}
use project_orange_tea.Base.{
  ℕ, zero, suc, ◌+◌, ◌<◌, ◌≡◌, ◌≢◌, ◌⊎◌, refl, ap, ◌∙◌, Bool, true, false, ◌&&◌, ◌||◌, ◌==◌, ==→eq,
  Option, none, some, leb, if◌then◌else◌, if-false, set, length, get_or-set_self, get_or-set_ne,
  first_where, first_where-IsFirst, first_where-none, Option-cases, Bool-cases, inl, inr, arith,
}
use project_orange_tea.Net.Stack.{
  Net, Rule, blank_rule, ok, rule_at, applies, verdict, firewall_from, firewall_allows,
  firewall_add_rule, max_firewall_rules,
}

and-parts : (a b : Bool) → a && b ≡ true → (a ≡ true) × (b ≡ true)
and-parts true b e = (refl, e)
and-parts false b e = cc

port : (p q : ℕ) → p == 0 || p == q ≡ true → (p ≡ 0) ⊎ (p ≡ q)
port p q e = elim (Bool-cases (p == 0)) [
  | inl z ↦ inl (==→eq _ _ z)
  | inr nz ↦ inr (==→eq _ _ (rw nz at e))
]

module _ (source_port destination_port inbound : ℕ) where
  abbrev matches : Net → ℕ → Bool
  matches n i = applies (rule_at n i) source_port destination_port inbound

  abbrev decided_by : Net → Option ℕ → ℕ
  decided_by n none = n.firewall_default_policy
  decided_by n (some i) = verdict (rule_at n i)

  -- The rule is for the packet: the direction is the packet's, and each port of the rule is the
  -- packet's or 0.
  abbrev pub IsFor : Rule → Type 0
  IsFor rule =
      (rule.inbound ≡ inbound)
      × ((rule.source_port ≡ 0) ⊎ (rule.source_port ≡ source_port))
      × ((rule.destination_port ≡ 0) ⊎ (rule.destination_port ≡ destination_port))

  -- The packet has the answer of the first live rule that is for it, 1 where the rule allows and 0
  -- where it does not; or no live rule is for it, and it has the default.
  abbrev pub Decided : Net → Type 0
  Decided n =
      ((i : ℕ) × (i < n.firewall_rule_count)
        × IsFor (rule_at n i)
        × ((j : ℕ) → j < i → ¬ IsFor (rule_at n j))
        × (((rule_at n i).allow ≡ 0) × (firewall_allows n source_port destination_port inbound ≡ 0)
            ⊎ ((rule_at n i).allow ≢ 0)
              × (firewall_allows n source_port destination_port inbound ≡ 1)))
      ⊎ (((j : ℕ) → j < n.firewall_rule_count → ¬ IsFor (rule_at n j))
          × (firewall_allows n source_port destination_port inbound ≡ n.firewall_default_policy))

  applies-IsFor :
      (rule : Rule) → applies rule source_port destination_port inbound ≡ true → IsFor rule
  applies-IsFor rule e =
      let (both, to) = and-parts _ _ e in
      let (way, from) = and-parts _ _ both in
      (
        ==→eq _ _ way,
        port rule.source_port source_port from,
        port rule.destination_port destination_port to,
      )

  IsFor-applies :
      (rule : Rule) → IsFor rule → applies rule source_port destination_port inbound ≡ true
  IsFor-applies rule (way, from, to) = rw (way) (ground (arith, from, to))

  unfit : (rule : Rule) → applies rule source_port destination_port inbound ≡ false → ¬ IsFor rule
  unfit rule e fits = cc (IsFor-applies rule fits)

  from-first :
      (n : Net) (rounds index : ℕ)
      → firewall_from n source_port destination_port inbound rounds index
        ≡ decided_by n (first_where (matches n) rounds index)
  unfolding firewall_from first_where
  from-first n zero index = refl
  from-first n (suc rounds) index = elim (Bool-cases (matches n index)) [
    | inl hit ↦ rw hit refl
    | inr miss ↦ rw miss (
        ap (firewall_from n source_port destination_port inbound rounds) (add_one index)
        ∙ from-first n rounds (suc index))
  ]
    where
      add_one : (k : ℕ) → k + 1 ≡ suc k
      add_one k = omega arith

  by_allow :
      (n : Net) (i answer : ℕ)
      → answer ≡ verdict (rule_at n i)
      → ((rule_at n i).allow ≡ 0) × (answer ≡ 0) ⊎ ((rule_at n i).allow ≢ 0) × (answer ≡ 1)
  by_allow n i answer e = elim (ℕ_discrete (rule_at n i).allow 0) [
    | yes z ↦ inl (z, e ∙ ground (arith, z))
    | no nz ↦ inr (nz, e ∙ ground (arith, nz))
  ]

  -- Whatever the table and the packet are: the first live rule whose direction is the packet's and
  -- each of whose ports is the packet's or 0 decides, with 1 where it allows and with 0 where it
  -- does not; where no live rule is such, the default policy decides.
  pub firewall_allows-first : (n : Net) → Decided n
  unfolding firewall_allows
  firewall_allows-first n = elim (Option-cases (first_where (matches n) n.firewall_rule_count 0)) [
    | inl nothing ↦ inr (
      λ j lt. unfit (rule_at n j) (
          first_where-none (matches n) n.firewall_rule_count 0 j nothing (omega arith)
            (omega arith)),
      from-first n n.firewall_rule_count 0 ∙ ap (decided_by n) nothing,
    )
    | inr (i, found) ↦
        let first = first_where-IsFirst (matches n) n.firewall_rule_count 0 i found in
        let answer = from-first n n.firewall_rule_count 0 ∙ ap (decided_by n) found in
        inl (
          i,
          omega (arith, first.below),
          applies-IsFor (rule_at n i) first.holds,
          λ j lt. unfit (rule_at n j) (first.before j (omega arith) lt),
          by_allow n i (firewall_allows n source_port destination_port inbound) answer,
        )
  ]

  module _ (n : Net) (rule : Rule) (rules : length n.firewall_rules ≡ max_firewall_rules)
      (room : n.firewall_rule_count < max_firewall_rules) where
    abbrev pub added : Net
    added = record n {
      firewall_rules = set n.firewall_rules n.firewall_rule_count rule;
      firewall_rule_count = n.firewall_rule_count + 1;
    }

    old_rule : (i : ℕ) → i < n.firewall_rule_count → rule_at added i ≡ rule_at n i
    old_rule i h =
        get_or-set_ne n.firewall_rules n.firewall_rule_count i rule blank_rule (λ e. omega arith)

    new_rule : rule_at added n.firewall_rule_count ≡ rule
    new_rule = get_or-set_self n.firewall_rules n.firewall_rule_count rule blank_rule (omega arith)

    -- the decision with a default of `d`, in place of the policy
    abbrev pub deciding : ℕ → Net
    deciding d = record n { firewall_default_policy = d }

    abbrev pub last_word : ℕ
    last_word =
        if applies rule source_port destination_port inbound
        then verdict rule
        else n.firewall_default_policy

    abbrev choose : ℕ → Rule → ℕ
    choose rest r = if applies r source_port destination_port inbound then verdict r else rest

    added-from :
        (rounds index : ℕ)
        → index + rounds ≡ n.firewall_rule_count
        → firewall_from added source_port destination_port inbound (suc rounds) index
          ≡ firewall_from (deciding last_word) source_port destination_port inbound rounds index
    unfolding firewall_from
    added-from zero index e =
        let here : index ≡ n.firewall_rule_count = omega arith in
        ap (choose n.firewall_default_policy) (ap (rule_at added) here ∙ new_rule)
    added-from (suc rounds) index e =
        ap (λ rest. choose rest (rule_at added index)) (added-from rounds (index + 1) (omega arith))
        ∙ ap
            (choose (
              firewall_from (deciding last_word) source_port destination_port inbound rounds
                (index + 1)))
            (old_rule index (omega arith))

    -- A rule that is added stands behind the others: it decides exactly the packets that would have
    -- come to the default policy, and the others are decided as before.
    pub allows-add_rule :
        firewall_add_rule n rule ≡ (ok, added)
        × (firewall_allows added source_port destination_port inbound
            ≡ firewall_allows (deciding last_word) source_port destination_port inbound)
    unfolding firewall_add_rule firewall_allows
    allows-add_rule =
        let open' : leb max_firewall_rules n.firewall_rule_count ≡ false = ground arith in
        let count : n.firewall_rule_count + 1 ≡ suc n.firewall_rule_count = omega arith in
        (
          if-false _ _ open',
          ap (λ k. firewall_from added source_port destination_port inbound k 0) count
              ∙ added-from n.firewall_rule_count 0 (omega arith),
        )
