-- ===== src/Tests/Calling.antt =====
-- Tests of the client, and its theorems at concrete inputs. The world counts the calls.
use gocommon.Base.{
  ℕ, zero, suc, ◌≡◌, ◌≤◌, ◌<◌, ◌⊎◌, inr, refl, true, false, Option, none, some, is_some, string_eq,
  if◌then◌else◌, arith, nat_eq, ltb, negsuc,
}
use gocommon.Registry.{Node}
use gocommon.Selector.{Selected, selected}
use gocommon.Client.{attempt, call_node, call_loop, address_node, rounds}
use gocommon.Client.Attempts.{after, error_of, call_loop-first}

abbrev no_pause : ℕ → ℕ → ℕ ⊎ ℕ
no_pause i w = inr 0

abbrev asleep : ℕ → ℕ → ℕ
asleep t w = w

abbrev one_node : ℕ → Selected Node × ℕ
one_node w = (selected (address_node "host"), w)

-- The calls fail until there have been so many.
abbrev fails_before : ℕ → Node → ℕ → Option ℕ × ℕ
fails_before k node w = (if ltb w k then some 7 else none, suc w)

abbrev unmarked : Node → Option ℕ → ℕ → ℕ
unmarked node err w = w

two_failures :
    (j : ℕ)
    → 0 ≤ j
    → j < 2
    → is_some (error_of no_pause asleep one_node (fails_before 2) unmarked 0 j) ≡ true
unfolding attempt call_node
two_failures zero a b = refl
two_failures (suc zero) a b = refl
two_failures (suc (suc j)) a b = absurd (omega arith)

third_success : error_of no_pause asleep one_node (fails_before 2) unmarked 0 2 ≡ none
unfolding attempt call_node
third_success = refl

call_loop-first_example :
    call_loop no_pause asleep one_node
      (fails_before 2)
      unmarked
      (λ i w. false)
      (λ w. inr true)
      4
      0
      none
      0
    ≡ (none, after no_pause asleep one_node (fails_before 2) unmarked 0 3)
call_loop-first_example =
    call_loop-first no_pause asleep one_node (fails_before 2) unmarked 0 (λ i w. false)
      (λ w. inr true) (λ i w. refl) (λ w. refl) 4 0 2 none (omega arith) (omega arith) two_failures
      third_success

three_failures :
    (j : ℕ)
    → j ≤ 2
    → is_some (error_of no_pause asleep one_node (fails_before 9) unmarked 0 j) ≡ true
unfolding attempt call_node
three_failures zero a = refl
three_failures (suc zero) a = refl
three_failures (suc (suc zero)) a = refl
three_failures (suc (suc (suc j))) a = absurd (omega arith)

-- With -1 retries there is no round at all.
no_round_run : rounds false (negsuc 0) ≡ some 0
unfolding rounds
no_round_run = refl
