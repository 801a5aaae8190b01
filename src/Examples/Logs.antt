-- ===== src/Examples/Logs.antt =====
-- internal/consensus: a log with a mutation that comes twice.
use m_aistr.Prelude.{String, ◌≡◌, refl, true, false, none, some, [], ◌∷◌}
use m_aistr.Prelude.Text.{trim_space}
use m_aistr.Prelude.Dict.{get, put}
use m_aistr.Consensus.StateMachine.{
  Mutation, MutationResult, StateMachine, command, new_state_machine, read, done,
  persist_applied_index, validate_mutation, validate_identifier, persist_error, apply, apply_data,
  apply_all,
}
use m_aistr.Consensus.StateMachine.Reading.{value_after, read-apply}
use m_aistr.Consensus.StateMachine.Replay.{apply-apply, apply_all-failed}

abbrev mutation : Mutation
mutation = record { operation_id = "op"; kind = "put"; key = "k"; value = 7 ∷ [] }

abbrev deletion : Mutation
deletion = record { operation_id = "other"; kind = "delete"; key = "k"; value = [] }

-- A digest of these two.
abbrev fingerprint : Mutation → String
fingerprint m = m.operation_id

abbrev first : MutationResult
first = record { operation_id = "op"; index = 1; duplicate = false }

answered : (apply fingerprint none (command 1 mutation) new_state_machine).1 ≡ done first
unfolding apply apply_data validate_mutation validate_identifier trim_space get
answered = refl

no_error :
    (apply_all fingerprint none
      (command 1 mutation ∷ command 2 deletion ∷ [])
      new_state_machine).storage_err
    ≡ none
unfolding apply_all apply apply_data validate_mutation validate_identifier trim_space get put
no_error = refl

written : persist_error 3 none ≡ none
unfolding persist_error
written = refl

apply-apply_example :
    apply fingerprint none
      (command 3 mutation)
      (apply_all fingerprint none (command 1 mutation ∷ command 2 deletion ∷ []) new_state_machine)
    ≡ (
      apply_all fingerprint none (command 1 mutation ∷ command 2 deletion ∷ []) new_state_machine,
      done (record { operation_id = "op"; index = 1; duplicate = true }),
    )
apply-apply_example =
    apply-apply fingerprint none 1 3 mutation new_state_machine first (command 2 deletion ∷ [])
      answered no_error written

abbrev broken : StateMachine
broken = record new_state_machine { storage_err = some (persist_applied_index 1 "disk full") }

apply_all-failed_example : apply_all fingerprint none (command 2 deletion ∷ []) broken ≡ broken
apply_all-failed_example =
    apply_all-failed fingerprint none (command 2 deletion ∷ []) broken
      (persist_applied_index 1 "disk full") refl

read-apply_example :
    read "k" (apply fingerprint none (command 1 mutation) new_state_machine).0
    ≡ value_after mutation "k" (read "k" new_state_machine)
read-apply_example =
    read-apply fingerprint none 1 mutation new_state_machine first "k" answered refl
