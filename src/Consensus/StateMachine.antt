-- ===== src/Consensus/StateMachine.antt =====
-- internal/consensus/fsm.go: the state machine that the replicated log drives, and
-- validateIdentifier of identity.go. `fingerprint` stands for the SHA-256 digest of a mutation's
-- JSON, and an entry of the log holds what `json.Unmarshal` makes of its data.
pub mod Replay
pub mod Reading
use Prim.Native.Char.{code}
use m_aistr.Prelude.{
  ℕ, zero, ◌+◌, ltb, ◌==◌, String, str_eq, Bool, true, false, not, ◌&&◌, ◌||◌, Option, none, some,
  List, [], ◌∷◌, length, is_empty, if◌then◌else◌,
}
use m_aistr.Prelude.Text.{trim_space}
use m_aistr.Prelude.Dict.{Dict, get, put, delete}

pub record Mutation : Type 0 where
  pub operation_id : String
  pub kind : String
  pub key : String
  pub value : List ℕ

pub record MutationResult : Type 0 where
  pub operation_id : String
  pub index : ℕ
  pub duplicate : Bool

pub record AppliedOperation : Type 0 where
  pub fingerprint : String
  pub index : ℕ

-- The error texts of fsm.go, without what they quote.
pub data MutationError : Type 0 where
  bad_identifier : String → MutationError
  delete_with_value : MutationError
  unsupported_kind : String → MutationError
  decode_error : MutationError
  operation_id_reuse : MutationError
  persist_applied_index : ℕ → String → MutationError

-- A response is nil, or has a result or an error.
pub data Response : Type 0 where
  nothing : Response
  done : MutationResult → Response
  refused : MutationError → Response

pub record StateMachine : Type 0 where
  pub values : Dict (List ℕ)
  pub operations : Dict AppliedOperation
  pub storage_err : Option MutationError

abbrev pub new_state_machine : StateMachine
new_state_machine = record { values = []; operations = []; storage_err = none }

-- The length of a text in UTF-8.
byte_length : String → ℕ
byte_length String.[] = 0
byte_length (String.◌∷◌ c s) =
    byte_length s
    + (if ltb (code c) 0x80
        then 1
        else if ltb (code c) 0x800
        then 2
        else if ltb (code c) 0x10000
        then 3
        else 4)

unfoldable pub validate_identifier : String → String → Option MutationError
unfolding byte_length
validate_identifier label value =
    if is_empty value || not (str_eq (trim_space value) value) || ltb 256 (byte_length value)
    then some (bad_identifier label)
    else none

or_else : Option MutationError → Option MutationError → Option MutationError
or_else none e = e
or_else (some e) _ = some e

validate_kind : Mutation → Option MutationError
validate_kind m =
    if str_eq m.kind "put"
    then none
    else if str_eq m.kind "delete"
    then (if length m.value == 0 then none else some delete_with_value)
    else some (unsupported_kind m.kind)

unfoldable pub validate_mutation : Mutation → Option MutationError
unfolding or_else validate_kind
validate_mutation m =
    or_else (validate_identifier "operation ID" m.operation_id)
      (or_else (validate_identifier "mutation key" m.key) (validate_kind m))

-- The `switch` on the kind of a valid mutation.
unfoldable pub mutate : Mutation → Dict (List ℕ) → Dict (List ℕ)
mutate m d =
    if str_eq m.kind "put"
    then put m.key m.value d
    else if str_eq m.kind "delete"
    then delete m.key d
    else d

pub record Log : Type 0 where
  pub is_command : Bool
  pub index : ℕ
  pub data_ : Option Mutation

abbrev pub command : ℕ → Mutation → Log
command index m = record { is_command = true; index = index; data_ = some m }

unfoldable pub read : String → StateMachine → Option (List ℕ)
read key f = get key f.values

-- A snapshot is the two maps; restoring one leaves the storage error.
abbrev pub StateSnapshot : Type 0
StateSnapshot = Dict (List ℕ) × Dict AppliedOperation

unfoldable pub snapshot : StateMachine → StateSnapshot
snapshot f = (f.values, f.operations)

unfoldable pub restore : StateSnapshot → StateMachine → StateMachine
restore s f = record f { values = s.0; operations = s.1 }

-- The write of an entry's index. `persist`, where it is set, stores it; its text is that of an error.
unfoldable pub persist_error : ℕ → Option (ℕ → Option String) → Option MutationError
persist_error index none = none
persist_error index (some p) = elim (p index) [
  | none ↦ none
  | some text ↦ some (persist_applied_index index text)
]

module _ (fingerprint : Mutation → String) (persist : Option (ℕ → Option String)) where
  -- The end of `Apply`, from the lookup of the operation.
  perform : ℕ → Mutation → StateMachine → Option AppliedOperation → StateMachine × Response
  perform index m f (some previous) =
      if str_eq previous.fingerprint (fingerprint m)
      then (
        f,
        done (record { operation_id = m.operation_id; index = previous.index; duplicate = true }),
      )
      else (f, refused operation_id_reuse)
  perform index m f none = (
    record f {
      values = mutate m f.values;
      operations =
          put m.operation_id (record { fingerprint = fingerprint m; index = index }) f.operations;
    },
    done (record { operation_id = m.operation_id; index = index; duplicate = false }),
  )

  persisted : ℕ → Mutation → StateMachine → Option MutationError → StateMachine × Response
  unfolding perform
  persisted index m f none = perform index m f (get m.operation_id f.operations)
  persisted index m f (some e) = (record f { storage_err = some e }, refused e)

  stored : ℕ → Mutation → StateMachine → Option MutationError → StateMachine × Response
  unfolding persisted persist_error
  stored index m f none = persisted index m f (persist_error index persist)
  stored index m f (some e) = (f, refused e)

  valid : ℕ → Mutation → StateMachine → Option MutationError → StateMachine × Response
  unfolding stored
  valid index m f none = stored index m f f.storage_err
  valid index m f (some e) = (f, refused e)

  unfoldable pub apply_data : ℕ → StateMachine → Option Mutation → StateMachine × Response
  unfolding valid
  apply_data index f none = (f, refused decode_error)
  apply_data index f (some m) = valid index m f (validate_mutation m)

  -- Apply
  unfoldable pub apply : Log → StateMachine → StateMachine × Response
  apply entry f = if entry.is_command then apply_data entry.index f entry.data_ else (f, nothing)

  -- The state after the entries of a log.
  unfoldable pub apply_all : List Log → StateMachine → StateMachine
  apply_all [] f = f
  apply_all (entry ∷ log) f = apply_all log (apply entry f).0
