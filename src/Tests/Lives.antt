-- ===== src/Tests/Lives.antt =====
-- Runs of services.
use gocommon.Base.{
  Bool-cases, inl, inr, ◌≡◌, refl, true, false, none, some, [], ◌∷◌, pos, ℕ, String, string_eq,
  ◌==◌, if◌then◌else◌, lookup, insert, remove,
}
use gocommon.Wrapper.{
  Options, registered, deregistered, State, returned, begin, begun, finish, finished, tick,
  register, deregister, start, stop, Reach, made, later, run, wake, end, ticked,
}
use gocommon.Wrapper.Metadata.{
  get, set, delete, from_context, capitalise, get_key, merge_context, or_empty,
}
use gocommon.Wrapper.Metadata.Merged.{merge_context-lookup}
use gocommon.Wrapper.Metadata.Titled.{get-set}
use gocommon.Wrapper.Ended.{Reach-Standing, Standing}

abbrev registered_service : Options
registered_service = record {
  srv = some record { name = "media"; version = "1"; metadata = none; endpoints = []; nodes = [] };
  registry = true;
  register_interval = pos 30;
}

-- Registered and taken off, and then registered again by the tick that the loop was about to take.
abbrev late : State ℕ
late = record {
  running = false;
  phase = returned none;
  looping = true;
  calls = registered none ∷ deregistered none ∷ registered none ∷ [];
}

late-Reach : Reach registered_service late
unfolding begin begun finish finished tick register deregister start stop
late-Reach =
    later (later (later (later made (run none refl)) (wake refl)) (end none refl))
      (ticked none refl)

Reach-Standing_example : Standing late.phase late.running late.looping late.calls
Reach-Standing_example = Reach-Standing registered_service _ refl refl late-Reach

-- A title of three words, as strings.Title makes it.
abbrev title_word : String → String
title_word k = if k == "trace" then "Trace" else if k == "span" then "Span" else k

-- A key that is no title: Delete leaves the title behind.
delete_leaves_title :
    get title_word (delete title_word (some (("trace", "7") ∷ [])) "trace") "trace" ≡ some "7"
unfolding get delete set from_context capitalise get_key lookup insert remove
delete_leaves_title = refl

merge_context-lookup_example :
    lookup "a"
      (or_empty (merge_context (some (("a", "1") ∷ [])) (("a", "") ∷ ("b", "2") ∷ []) true))
    ≡ none
unfolding lookup
merge_context-lookup_example =
    merge_context-lookup (some (("a", "1") ∷ [])) (("a", "") ∷ ("b", "2") ∷ []) true "a" (refl, tt)
      (refl, (refl, tt))

title_word-twice : (k : String) → title_word (title_word k) ≡ title_word k
title_word-twice k = elim (Bool-cases (k == "trace")) [
  | inl t ↦ rw t refl
  | inr f ↦ elim (Bool-cases (k == "span")) [
    | inl t ↦ rw (f, t) refl
    | inr g ↦ rw (f, g) rw (f, g) refl
  ]
]

get-set_example :
    get title_word (set title_word (some (("span", "3") ∷ ("Trace", "7") ∷ [])) "Trace" "8") "trace"
    ≡ some "8"
get-set_example =
    get-set title_word title_word-twice (some (("span", "3") ∷ ("Trace", "7") ∷ [])) "Trace" "8"
      "trace" refl
