-- ===== src/Consensus/StateMachine/Reading.antt =====
-- internal/consensus/fsm.go: what Read finds behind an applied mutation.
use m_aistr.Prelude.{
  ℕ, String, str_eq, ◌≡◌, refl, arith, if◌then◌else◌, true, false, ◌||◌, Option, none, some, List,
}
use m_aistr.Prelude.Dict.{get, get-put, get-delete}
use m_aistr.Consensus.StateMachine.{
  Mutation, MutationResult, MutationError, AppliedOperation, StateMachine, command, done,
  validate_mutation, or_else, validate_kind, mutate, read, apply, apply_data, persist_error,
  perform, persisted, stored, valid,
}

-- What a mutation makes of the value of a key.
abbrev pub value_after : Mutation → String → Option (List ℕ) → Option (List ℕ)
value_after m key old =
    if str_eq m.key key then (if str_eq m.kind "put" then some m.value else none) else old

or_else-none : (a b : Option MutationError) → or_else a b ≡ none → b ≡ none
unfolding or_else
or_else-none none b h = h
or_else-none (some e) b h = absurd (cc)

kind_known :
    (m : Mutation) → validate_kind m ≡ none → (str_eq m.kind "put" || str_eq m.kind "delete") ≡ true
unfolding validate_kind
kind_known m h = ground arith

valid_kind :
    (m : Mutation)
    → validate_mutation m ≡ none
    → (str_eq m.kind "put" || str_eq m.kind "delete") ≡ true
unfolding validate_mutation
valid_kind m h = kind_known m (or_else-none _ (validate_kind m) (or_else-none _ _ h))

get-mutate :
    (m : Mutation) (key : String) (f : StateMachine)
    → validate_mutation m ≡ none
    → get key (mutate m f.values) ≡ value_after m key (get key f.values)
unfolding mutate
get-mutate m key f h =
    ground
      (arith, valid_kind m h, get-put m.key key m.value f.values, get-delete m.key key f.values)

module _ (fingerprint : Mutation → String) (persist : Option (ℕ → Option String)) where
  performed :
      (index : ℕ) (m : Mutation) (f : StateMachine) (r : MutationResult) (key : String)
      (previous : Option AppliedOperation)
      → validate_mutation m ≡ none
      → (perform fingerprint persist index m f previous).1 ≡ done r
      → r.duplicate ≡ false
      → get key (perform fingerprint persist index m f previous).0.values
        ≡ value_after m key (get key f.values)
  unfolding perform
  performed index m f r key (some p) v h d = absurd (ground (arith, h, d))
  performed index m f r key none v h d = get-mutate m key f v

  -- A mutation that is applied for the first time is read back: its key has the value that it puts,
  -- or none if it deletes, and every other key has the value of before.
  pub read-apply :
      (index : ℕ) (m : Mutation) (f : StateMachine) (r : MutationResult) (key : String)
      → (apply fingerprint persist (command index m) f).1 ≡ done r
      → r.duplicate ≡ false
      → read key (apply fingerprint persist (command index m) f).0 ≡ value_after m key (read key f)
  unfolding apply apply_data valid stored persisted read
  read-apply index m f r key h d = checked (validate_mutation m) refl h
    where
      written :
          (e : Option MutationError)
          → validate_mutation m ≡ none
          → (persisted fingerprint persist index m f e).1 ≡ done r
          → get key (persisted fingerprint persist index m f e).0.values
            ≡ value_after m key (get key f.values)
      written none v k = performed index m f r key (get m.operation_id f.operations) v k d
      written (some e) v k = absurd (cc)

      sane :
          (e : Option MutationError)
          → validate_mutation m ≡ none
          → (stored fingerprint persist index m f e).1 ≡ done r
          → get key (stored fingerprint persist index m f e).0.values
            ≡ value_after m key (get key f.values)
      sane none v k = written (persist_error index persist) v k
      sane (some e) v k = absurd (cc)

      checked :
          (e : Option MutationError)
          → validate_mutation m ≡ e
          → (valid fingerprint persist index m f e).1 ≡ done r
          → get key (valid fingerprint persist index m f e).0.values
            ≡ value_after m key (get key f.values)
      checked none v k = sane f.storage_err v k
      checked (some e) v k = absurd (cc)
