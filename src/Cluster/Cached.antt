-- ===== src/Cluster/Cached.antt =====
-- internal/cluster/registry.go: the snapshot that is kept is the one of the table.
use m_aistr.Prelude.{
  ℕ, ◌≡◌, refl, sym, ap, ◌∙◌, arith, String, str_eq, is_empty, Bool, true, false, Option, none,
  some, List, [], ◌∷◌, if_elim, if◌then◌else◌, ◌||◌,
}
use m_aistr.Prelude.Integers.{ℤ, pos, negsuc, ◌+ℤ◌}
use m_aistr.Prelude.Dict.{
  Dict, get, put, put-get, has, Entries, get-Entries, put-Entries, delete-Entries,
}
use m_aistr.Cluster.{
  NodeStatus, Registry, new_registry, invalidate_snapshot, compare_versions, upsert, update_devices,
  mark_unhealthy, remove, increment_load, is_zero, at_least_zero, build_snapshot, all_nodes,
}

-- The calls that change a registry, and the reading of all its nodes.
pub data Call (D R : Type 0) : Type 0 where
  upserted : NodeStatus D R → ℕ → Call D R
  devices_updated : String → String → D → Call D R
  marked_unhealthy : String → Call D R
  removed : String → Call D R
  load_incremented : String → ℤ → Call D R
  all_read : Call D R

abbrev pub IsLoad : ℤ → Type 0
IsLoad (pos n) = Unit
IsLoad (negsuc n) = ⊥

module _ {D R : Type 0} where
  -- Nodes report no negative loads.
  abbrev pub Plausible : List (Call D R) → Type 0
  Plausible [] = Unit
  Plausible (upserted status now ∷ calls) = IsLoad status.active_tasks × Plausible calls
  Plausible (devices_updated id address devices ∷ calls) = Plausible calls
  Plausible (marked_unhealthy id ∷ calls) = Plausible calls
  Plausible (removed id ∷ calls) = Plausible calls
  Plausible (load_incremented id delta ∷ calls) = Plausible calls
  Plausible (all_read ∷ calls) = Plausible calls

  abbrev Loaded : NodeStatus D R → Type 0
  Loaded n = IsLoad n.active_tasks

at_least_zero-IsLoad : (n : ℤ) → IsLoad (at_least_zero n)
unfolding at_least_zero
at_least_zero-IsLoad (pos n) = tt
at_least_zero-IsLoad (negsuc n) = tt

-- A change by nothing.
add_zero : (n delta : ℤ) → IsLoad n → is_zero delta ≡ true → at_least_zero (n +ℤ delta) ≡ n
unfolding at_least_zero is_zero ◌+ℤ◌
add_zero (pos n) (pos d) h z = ap pos (ground (arith, z))
add_zero (pos n) (negsuc d) h z = absurd (cc)
add_zero (negsuc n) delta h z = elim h [ ]

module _ {D R : Type 0} (score : D → R → ℕ) (older : String → String → Bool) where
  abbrev pub call : Call D R → Registry D R → Registry D R
  call (upserted status now) r = upsert older status now r
  call (devices_updated id address devices) r = (update_devices id address devices r).0
  call (marked_unhealthy id) r = mark_unhealthy id r
  call (removed id) r = remove id r
  call (load_incremented id delta) r = increment_load id delta r
  call all_read r = (all_nodes score r).0

  abbrev pub run : List (Call D R) → Registry D R → Registry D R
  run [] r = r
  run (c ∷ calls) r = run calls (call c r)

  -- What is kept is up to date, and no load is negative.
  abbrev IsCoherent : Registry D R → Type 0
  IsCoherent r =
      (r.all_cache_valid ≡ true → r.all_cache ≡ build_snapshot score r.nodes)
      × Entries Loaded r.nodes

  compare_versions-Loaded :
      (version : String) (nodes : Dict (NodeStatus D R))
      → Entries Loaded nodes
      → Entries Loaded (compare_versions older version nodes).0
  unfolding compare_versions
  compare_versions-Loaded version [] h = tt
  compare_versions-Loaded version ((id, n) ∷ nodes) (p, h) =
      let rest = compare_versions-Loaded version nodes h in
      if_elim {A = Dict (NodeStatus D R) × String} (λ r. Entries Loaded r.0)
        (is_empty n.version || is_empty version || str_eq n.version version) (λ _. (p, rest))
        (λ _.
          if_elim {A = Dict (NodeStatus D R) × String} (λ r. Entries Loaded r.0)
            (older version n.version) (λ _. (p, h))
            (λ _.
              if_elim {A = Dict (NodeStatus D R) × String} (λ r. Entries Loaded r.0)
                (older n.version version) (λ _. (p, rest)) (λ _. (p, rest))))

  upsert-IsCoherent :
      (status : NodeStatus D R) (now : ℕ) (r : Registry D R)
      → IsLoad status.active_tasks
      → IsCoherent r
      → IsCoherent (upsert older status now r)
  unfolding upsert invalidate_snapshot
  upsert-IsCoherent status now r load (kept, loads) = (
    (λ valid. absurd (cc)),
    put-Entries Loaded status.id
        (record status {
          last_seen = now;
          healthy = true;
          queued_tasks = 0;
          version_error = (compare_versions older status.version r.nodes).1;
        })
        (compare_versions older status.version r.nodes).0 load
        (compare_versions-Loaded status.version r.nodes loads),
  )

  update_devices-IsCoherent :
      (id address : String) (devices : D) (r : Registry D R)
      → IsCoherent r
      → IsCoherent (update_devices id address devices r).0
  unfolding update_devices invalidate_snapshot
  update_devices-IsCoherent id address devices r (kept, loads) =
      go (get id r.nodes) (λ n e. get-Entries Loaded id r.nodes loads e)
    where
      go :
          (o : Option (NodeStatus D R))
          → ((n : NodeStatus D R) → o ≡ some n → Loaded n)
          → IsCoherent
              (elim o as (λ _. Registry D R × Bool) [
                | none ↦ (r, false)
                | some n ↦
                    if str_eq n.address address
                    then (
                      invalidate_snapshot
                          (record r { nodes = put id (record n { devices = devices }) r.nodes }),
                      true,
                    )
                    else (r, false)
              ]).0
      go none h = (kept, loads)
      go (some n) h =
          if_elim {A = Registry D R × Bool} (λ p. IsCoherent p.0) (str_eq n.address address)
            (λ _. (
              (λ valid. absurd (cc)),
              put-Entries Loaded id (record n { devices = devices }) r.nodes (h n refl) loads,
            ))
            (λ _. (kept, loads))

  mark_unhealthy-IsCoherent :
      (id : String) (r : Registry D R) → IsCoherent r → IsCoherent (mark_unhealthy id r)
  unfolding mark_unhealthy invalidate_snapshot
  mark_unhealthy-IsCoherent id r (kept, loads) =
      go (get id r.nodes) (λ n e. get-Entries Loaded id r.nodes loads e)
    where
      go :
          (o : Option (NodeStatus D R))
          → ((n : NodeStatus D R) → o ≡ some n → Loaded n)
          → IsCoherent (elim o [
            | none ↦ r
            | some n ↦
                invalidate_snapshot
                  (record r { nodes = put id (record n { healthy = false }) r.nodes })
          ])
      go none h = (kept, loads)
      go (some n) h = (
        (λ valid. absurd (cc)),
        put-Entries Loaded id (record n { healthy = false }) r.nodes (h n refl) loads,
      )

  remove-IsCoherent : (id : String) (r : Registry D R) → IsCoherent r → IsCoherent (remove id r)
  unfolding remove invalidate_snapshot
  remove-IsCoherent id r (kept, loads) =
      if_elim {A = Registry D R} IsCoherent (has id r.nodes)
        (λ _. ((λ valid. absurd (cc)), delete-Entries Loaded id r.nodes loads)) (λ _. (kept, loads))

  increment_load-IsCoherent :
      (id : String) (delta : ℤ) (r : Registry D R)
      → IsCoherent r
      → IsCoherent (increment_load id delta r)
  unfolding increment_load invalidate_snapshot
  increment_load-IsCoherent id delta r (kept, loads) = go (get id r.nodes) refl
    where
      same :
          (n : NodeStatus D R)
          → get id r.nodes ≡ some n
          → is_zero delta ≡ true
          → put id (record n { active_tasks = at_least_zero (n.active_tasks +ℤ delta) }) r.nodes
            ≡ r.nodes
      same n e z =
          ap (λ load. put id (record n { active_tasks = load }) r.nodes)
            (add_zero n.active_tasks delta (get-Entries Loaded id r.nodes loads e) z)
          ∙ put-get id n r.nodes e

      go :
          (o : Option (NodeStatus D R))
          → get id r.nodes ≡ o
          → IsCoherent (elim o [
            | none ↦ r
            | some n ↦
                let changed = record r {
                  nodes =
                      put id
                        (record n { active_tasks = at_least_zero (n.active_tasks +ℤ delta) })
                        r.nodes;
                } in
                if is_zero delta then changed else invalidate_snapshot changed
          ])
      go none e = (kept, loads)
      go (some n) e =
          let loads' =
            put-Entries Loaded id
              (record n { active_tasks = at_least_zero (n.active_tasks +ℤ delta) }) r.nodes
              (at_least_zero-IsLoad (n.active_tasks +ℤ delta)) loads in
          if_elim {A = Registry D R} IsCoherent (is_zero delta)
            (λ zero_delta.
              (λ valid. kept valid ∙ ap (build_snapshot score) (sym (same n e zero_delta)), loads'))
            (λ _. ((λ valid. absurd (cc)), loads'))

  all_nodes-IsCoherent :
      (r : Registry D R)
      → IsCoherent r
      → IsCoherent (all_nodes score r).0 × ((all_nodes score r).1 ≡ build_snapshot score r.nodes)
  unfolding all_nodes
  all_nodes-IsCoherent r (kept, loads) =
      if_elim {A = Registry D R × List (NodeStatus D R)}
        (λ p. IsCoherent p.0 × (p.1 ≡ build_snapshot score r.nodes)) r.all_cache_valid
        (λ valid. ((kept, loads), kept valid)) (λ _. (((λ _. refl), loads), refl))

  run-IsCoherent :
      (calls : List (Call D R)) (r : Registry D R)
      → Plausible calls
      → IsCoherent r
      → IsCoherent (run calls r)
  run-IsCoherent [] r h k = k
  run-IsCoherent (upserted status now ∷ calls) r (load, h) k =
      run-IsCoherent calls (upsert older status now r) h (upsert-IsCoherent status now r load k)
  run-IsCoherent (devices_updated id address devices ∷ calls) r h k =
      run-IsCoherent calls (update_devices id address devices r).0 h
        (update_devices-IsCoherent id address devices r k)
  run-IsCoherent (marked_unhealthy id ∷ calls) r h k =
      run-IsCoherent calls (mark_unhealthy id r) h (mark_unhealthy-IsCoherent id r k)
  run-IsCoherent (removed id ∷ calls) r h k =
      run-IsCoherent calls (remove id r) h (remove-IsCoherent id r k)
  run-IsCoherent (load_incremented id delta ∷ calls) r h k =
      run-IsCoherent calls (increment_load id delta r) h (increment_load-IsCoherent id delta r k)
  run-IsCoherent (all_read ∷ calls) r h k =
      run-IsCoherent calls (all_nodes score r).0 h (all_nodes-IsCoherent r k).0

  -- Whatever calls a registry has had since it was made, All returns the snapshot that would be
  -- built of its table now, as long as no node reports a negative load.
  pub all_nodes-build_snapshot :
      (calls : List (Call D R))
      → Plausible calls
      → (all_nodes score (run calls new_registry)).1
        ≡ build_snapshot score (run calls new_registry).nodes
  unfolding new_registry
  all_nodes-build_snapshot calls h =
      (all_nodes-IsCoherent (run calls new_registry)
        (run-IsCoherent calls new_registry h ((λ valid. absurd (cc)), tt))).1
