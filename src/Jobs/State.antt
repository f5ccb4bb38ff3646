-- ===== src/Jobs/State.antt =====
-- internal/jobs/state.go: the states of a job and the edges between them. The column holds the
-- seven constants of the source and no other text, so a state is an enumeration.
use inferbolt.Base.{
  String, Bool, true, false, ◌||◌, Option, none, some, List, [], ◌∷◌, ◌==◌, if◌then◌else◌,
}

pub data JobState : Type 0 where
  pending running collecting analyzing completed failed cancelled : JobState

-- The text of the constant, which `string(state)` and `%s` give.
abbrev pub text : JobState → String
text pending = "pending"
text running = "running"
text collecting = "collecting"
text analyzing = "analyzing"
text completed = "completed"
text failed = "failed"
text cancelled = "cancelled"

abbrev pub same_state : JobState → JobState → Bool
same_state a b = text a == text b

-- The `map[JobState][]JobState`; `none` is a missing key.
valid_transitions : JobState → Option (List JobState)
valid_transitions pending = some (running ∷ [])
valid_transitions running = some (collecting ∷ failed ∷ cancelled ∷ [])
valid_transitions collecting = some (analyzing ∷ failed ∷ [])
valid_transitions analyzing = some (completed ∷ failed ∷ [])
valid_transitions _ = none

-- The loop over the successors.
any_state : JobState → List JobState → Bool
any_state to [] = false
any_state to (s ∷ nexts) = if same_state s to then true else any_state to nexts

found_in : JobState → Option (List JobState) → Bool
found_in to none = false
found_in to (some nexts) = any_state to nexts

unfoldable pub valid_transition : JobState → JobState → Bool
unfolding valid_transitions any_state found_in
valid_transition from to = found_in to (valid_transitions from)

unfoldable pub is_terminal : JobState → Bool
is_terminal state =
    same_state state completed || same_state state failed || same_state state cancelled
