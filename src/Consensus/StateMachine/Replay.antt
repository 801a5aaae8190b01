-- ===== src/Consensus/StateMachine/Replay.antt =====
-- internal/consensus/fsm.go: what `Apply` makes of an operation that the log holds twice, and of an
-- error of the storage.
use m_aistr.Prelude.{
  ℕ, String, ◌≡◌, refl, ◌∙◌, ap, arith, if_elim, true, Option, none, some, List, [], ◌∷◌, eq_iff,
}
use text.Mathlib.TextPositions.{eq_refl}
use m_aistr.Prelude.Dict.{get, get-put}
use m_aistr.Consensus.StateMachine.{
  Mutation, MutationResult, MutationError, AppliedOperation, StateMachine, Response, done, Log,
  command, validate_mutation, apply, apply_data, apply_all, persist_error, perform, persisted,
  stored, valid,
}

module _ (fingerprint : Mutation → String) (persist : Option (ℕ → Option String)) where
  perform-keeps :
      (id : String) (o : AppliedOperation) (index : ℕ) (m : Mutation) (f : StateMachine)
      (previous : Option AppliedOperation)
      → get m.operation_id f.operations ≡ previous
      → get id f.operations ≡ some o
      → get id (perform fingerprint persist index m f previous).0.operations ≡ some o
  unfolding perform
  perform-keeps id o index m f (some p) q h = ground arith
  perform-keeps id o index m f none q h = ground (
    arith,
    eq_iff m.operation_id id,
    get-put m.operation_id id (record { fingerprint = fingerprint m; index = index }) f.operations,
  )

  apply-keeps :
      (id : String) (o : AppliedOperation) (entry : Log) (f : StateMachine)
      → get id f.operations ≡ some o
      → get id (apply fingerprint persist entry f).0.operations ≡ some o
  unfolding apply apply_data valid stored persisted
  apply-keeps id o entry f h =
      if_elim {A = StateMachine × Response} (λ r. get id r.0.operations ≡ some o) entry.is_command
        (λ _. data_keeps entry.data_) (λ _. h)
    where
      persisted_keeps :
          (m : Mutation) (e : Option MutationError)
          → get id (persisted fingerprint persist entry.index m f e).0.operations ≡ some o
      persisted_keeps m none =
          perform-keeps id o entry.index m f (get m.operation_id f.operations) refl h
      persisted_keeps m (some e) = h

      stored_keeps :
          (m : Mutation) (e : Option MutationError)
          → get id (stored fingerprint persist entry.index m f e).0.operations ≡ some o
      stored_keeps m none = persisted_keeps m (persist_error entry.index persist)
      stored_keeps m (some e) = h

      valid_keeps :
          (m : Mutation) (e : Option MutationError)
          → get id (valid fingerprint persist entry.index m f e).0.operations ≡ some o
      valid_keeps m none = stored_keeps m f.storage_err
      valid_keeps m (some e) = h

      data_keeps :
          (d : Option Mutation)
          → get id (apply_data fingerprint persist entry.index f d).0.operations ≡ some o
      data_keeps none = h
      data_keeps (some m) = valid_keeps m (validate_mutation m)

  -- What an operation was recorded with stays recorded, whatever the log brings.
  apply_all-keeps :
      (id : String) (o : AppliedOperation) (log : List Log) (f : StateMachine)
      → get id f.operations ≡ some o
      → get id (apply_all fingerprint persist log f).operations ≡ some o
  unfolding apply_all
  apply_all-keeps id o [] f h = h
  apply_all-keeps id o (entry ∷ log) f h =
      apply_all-keeps id o log (apply fingerprint persist entry f).0 (apply-keeps id o entry f h)

  -- A recorded result: the operation is valid, and its fingerprint and index are in the state.
  abbrev IsRecorded : Mutation → MutationResult → StateMachine → Type 0
  IsRecorded m r g =
      (validate_mutation m ≡ none)
      × (r.operation_id ≡ m.operation_id)
      × (get m.operation_id g.operations
          ≡ some (record { fingerprint = fingerprint m; index = r.index }))

  perform-IsRecorded :
      (index : ℕ) (m : Mutation) (f : StateMachine) (r : MutationResult)
      (previous : Option AppliedOperation)
      → get m.operation_id f.operations ≡ previous
      → validate_mutation m ≡ none
      → (perform fingerprint persist index m f previous).1 ≡ done r
      → IsRecorded m r (perform fingerprint persist index m f previous).0
  unfolding perform
  perform-IsRecorded index m f r (some p) q v h =
      ground (arith, eq_iff p.fingerprint (fingerprint m))
  perform-IsRecorded index m f r none q v h = ground (
    arith,
    eq_iff m.operation_id m.operation_id,
    get-put m.operation_id m.operation_id (record { fingerprint = fingerprint m; index = index })
        f.operations,
  )

  data-IsRecorded :
      (index : ℕ) (m : Mutation) (f : StateMachine) (r : MutationResult)
      → (apply_data fingerprint persist index f (some m)).1 ≡ done r
      → IsRecorded m r (apply_data fingerprint persist index f (some m)).0
  unfolding apply_data valid stored persisted
  data-IsRecorded index m f r h = checked (validate_mutation m) refl h
    where
      written :
          (e : Option MutationError)
          → validate_mutation m ≡ none
          → (persisted fingerprint persist index m f e).1 ≡ done r
          → IsRecorded m r (persisted fingerprint persist index m f e).0
      written none v k = perform-IsRecorded index m f r (get m.operation_id f.operations) refl v k
      written (some e) v k = absurd (cc)

      sane :
          (e : Option MutationError)
          → validate_mutation m ≡ none
          → (stored fingerprint persist index m f e).1 ≡ done r
          → IsRecorded m r (stored fingerprint persist index m f e).0
      sane none v k = written (persist_error index persist) v k
      sane (some e) v k = absurd (cc)

      checked :
          (e : Option MutationError)
          → validate_mutation m ≡ e
          → (valid fingerprint persist index m f e).1 ≡ done r
          → IsRecorded m r (valid fingerprint persist index m f e).0
      checked none v k = sane f.storage_err v k
      checked (some e) v k = absurd (cc)

  again :
      (index : ℕ) (m : Mutation) (g : StateMachine) (r : MutationResult)
      → IsRecorded m r g
      → g.storage_err ≡ none
      → persist_error index persist ≡ none
      → apply_data fingerprint persist index g (some m)
        ≡ (g, done (record { operation_id = m.operation_id; index = r.index; duplicate = true }))
  unfolding apply_data valid stored persisted perform
  again index m g r h s p = ground (arith, h.0, h.1, h.2, eq_refl (fingerprint m))

  -- Once a mutation has been answered with a result, an entry with the same mutation, however much
  -- of the log comes between, leaves the state as it is and is answered as a duplicate with the
  -- index of the first answer, where no write of an index has failed, nor that of the entry's own.
  pub apply-apply :
      (index later : ℕ) (m : Mutation) (f : StateMachine) (r : MutationResult) (log : List Log)
      → (apply fingerprint persist (command index m) f).1 ≡ done r
      → (apply_all fingerprint persist (command index m ∷ log) f).storage_err ≡ none
      → persist_error later persist ≡ none
      → apply fingerprint persist
          (command later m)
          (apply_all fingerprint persist (command index m ∷ log) f)
        ≡ (
          apply_all fingerprint persist (command index m ∷ log) f,
          done (record { operation_id = m.operation_id; index = r.index; duplicate = true }),
        )
  unfolding apply apply_all
  apply-apply index later m f r log h s p =
      let first = data-IsRecorded index m f r h in
      let f' = (apply_data fingerprint persist index f (some m)).0 in
      again later m (apply_all fingerprint persist log f') r
        (
          first.0,
          first.1,
          apply_all-keeps m.operation_id (record { fingerprint = fingerprint m; index = r.index })
              log f' first.2,
        )
        s p

  apply-failed :
      (entry : Log) (f : StateMachine) (e : MutationError)
      → f.storage_err ≡ some e
      → (apply fingerprint persist entry f).0 ≡ f
  unfolding apply apply_data valid stored
  apply-failed entry f e h =
      if_elim {A = StateMachine × Response} (λ r. r.0 ≡ f) entry.is_command
        (λ _. unchanged entry.data_) (λ _. refl)
    where
      checked :
          (m : Mutation) (v : Option MutationError)
          → (valid fingerprint persist entry.index m f v).0 ≡ f
      checked m none = ground (arith, h)
      checked m (some v) = refl

      unchanged : (d : Option Mutation) → (apply_data fingerprint persist entry.index f d).0 ≡ f
      unchanged none = refl
      unchanged (some m) = checked m (validate_mutation m)

  -- A failed write of an index stops the state machine: no later entry changes it.
  pub apply_all-failed :
      (log : List Log) (f : StateMachine) (e : MutationError)
      → f.storage_err ≡ some e
      → apply_all fingerprint persist log f ≡ f
  unfolding apply_all
  apply_all-failed [] f e h = refl
  apply_all-failed (entry ∷ log) f e h =
      let same = apply-failed entry f e h in
      apply_all-failed log (apply fingerprint persist entry f).0 e
        (ap (λ g. g.storage_err) same ∙ h)
      ∙ same
