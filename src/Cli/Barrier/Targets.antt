-- ===== src/Cli/Barrier/Targets.antt =====
-- crates/missive-cli/src/barrier.rs: the target states of the arguments, and the class of a state.
use missive.Common.{
  ◌≡◌, refl, Bool, true, false, not, ◌&&◌, List, [], ◌∷◌, inl, inr, arith, if◌then◌else◌,
  Bool-cases, is_empty, ◌∙◌, ap,
}
use missive.Store.Tasks.{TaskState, same_state}
use missive.Cli.Barrier.{
  BarrierTargets, has_state, unique_states, from_args, is_success_state, is_requested,
  classify_record_state, is_terminal_task_state, is_success, is_disqualified, is_pending,
}

same_state→eq : (a b : TaskState) → same_state a b ≡ true → a ≡ b
unfolding same_state
same_state→eq a b h = ground arith

same_state_comm : (a b : TaskState) → same_state a b ≡ same_state b a
unfolding same_state
same_state_comm a b = ground arith

has_state-same :
    (xs : List TaskState) (a b : TaskState)
    → same_state a b ≡ true
    → has_state xs a ≡ has_state xs b
has_state-same xs a b h = ap (has_state xs) (same_state→eq a b h)

-- A list without repetitions.
unfoldable pub IsUnique : List TaskState → Type 0
IsUnique [] = Unit
IsUnique (a ∷ xs) = (has_state xs a ≡ false) × IsUnique xs

unique_states-has_state :
    (seen xs : List TaskState) (s : TaskState)
    → has_state (unique_states seen xs) s ≡ (has_state xs s && not (has_state seen s))
unfolding unique_states
unique_states-has_state seen [] s = refl
unique_states-has_state seen (a ∷ xs) s = elim (Bool-cases (has_state seen a)) [
  | inl old ↦
      let rest = unique_states-has_state seen xs s in
      elim (Bool-cases (same_state s a)) [
        | inl hit ↦ let same = has_state-same seen s a hit in ground arith
        | inr miss ↦ ground arith
      ]
  | inr new ↦
      let rest = unique_states-has_state (a ∷ seen) xs s in
      elim (Bool-cases (same_state s a)) [
        | inl hit ↦ let same = has_state-same seen s a hit in ground arith
        | inr miss ↦ ground arith
      ]
]

same_state_refl : (a : TaskState) → same_state a a ≡ true
unfolding same_state
same_state_refl a = ground arith

either :
    (b : Bool) (xs ys : List TaskState)
    → IsUnique xs
    → IsUnique ys
    → IsUnique (elim b [ true ↦ xs | false ↦ ys ])
either true xs ys h g = h
either false xs ys h g = g

unique_states-IsUnique : (seen xs : List TaskState) → IsUnique (unique_states seen xs)
unfolding unique_states IsUnique
unique_states-IsUnique seen [] = tt
unique_states-IsUnique seen (a ∷ xs) =
    let later = unique_states-IsUnique (a ∷ seen) xs in
    let fresh : has_state (unique_states (a ∷ seen) xs) a ≡ false =
      unique_states-has_state (a ∷ seen) xs a ∙ rw (same_state_refl a) (ground arith) in
    either (has_state seen a) _ _ (unique_states-IsUnique seen xs) (fresh, later)

-- The states given as arguments are the targets and the successes, each of them once; without any,
-- the targets are the terminal states and the success is completion.
pub from_args-has_state :
    (states : List TaskState) (s : TaskState)
    → IsUnique (from_args states).target_states
      × (is_success_state (from_args states) s
          ≡ (if is_empty states then same_state s TaskState.completed else has_state states s))
      × (is_requested (from_args states) s
          ≡ (if is_empty states then is_terminal_task_state s else has_state states s))
unfolding from_args IsUnique is_terminal_task_state unique_states same_state
from_args-has_state [] s = ((refl, (refl, (refl, tt))), ground arith, ground arith)
from_args-has_state (a ∷ xs) s =
    let seen = unique_states-has_state [] (a ∷ xs) s in
    (unique_states-IsUnique [] (a ∷ xs), ground arith, ground arith)

classify-explicit :
    (chosen : List TaskState) (s : TaskState)
    → let targets : BarrierTargets = record {
      explicit = true;
      target_states = chosen;
      success_states = chosen;
    } in
      (is_success (classify_record_state s targets) ≡ has_state chosen s)
      × (is_disqualified (classify_record_state s targets)
          ≡ (is_terminal_task_state s && not (has_state chosen s)))
      × (is_pending (classify_record_state s targets)
          ≡ (not (is_terminal_task_state s) && not (has_state chosen s)))
unfolding classify_record_state is_terminal_task_state is_success is_disqualified is_pending
classify-explicit chosen s = (ground arith, ground arith, ground arith)

-- Against the targets of the arguments a state satisfies its member if it is a success, disqualifies
-- it if it is terminal and no success, and otherwise leaves it pending.
pub classify_record_state-from_args :
    (states : List TaskState) (s : TaskState)
    → (is_success (classify_record_state s (from_args states))
        ≡ is_success_state (from_args states) s)
      × (is_disqualified (classify_record_state s (from_args states))
          ≡ (is_terminal_task_state s && not (is_success_state (from_args states) s)))
      × (is_pending (classify_record_state s (from_args states))
          ≡ (not (is_terminal_task_state s) && not (is_success_state (from_args states) s)))
unfolding from_args unique_states
classify_record_state-from_args [] s =
    unfold classify_record_state is_terminal_task_state is_success is_disqualified is_pending
      same_state in
    (ground arith, ground arith, ground arith)
classify_record_state-from_args (a ∷ xs) s = classify-explicit (a ∷ unique_states (a ∷ []) xs) s
