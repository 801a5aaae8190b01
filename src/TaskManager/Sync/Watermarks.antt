-- ===== src/TaskManager/Sync/Watermarks.antt =====
-- internal/taskmgr/sync.go: what a peer with this manager's watermarks is sent.
use m_aistr.Prelude.{
  ℕ, ◌≤◌, String, ◌≡◌, arith, ◌==◌, if_elim, true, false, ◌||◌, is_empty, eq_iff, map, List, [],
  ◌∷◌, select, All,
}
use native.Mathlib.Nat.{le_trans}
use m_aistr.Prelude.Dict.{Dict, get_or, get-put}
use m_aistr.TaskManager.Model.{Task, clone_task}
use m_aistr.TaskManager.Sync.{
  note_watermark, watermarks_from, snapshot_watermarks, is_beyond, snapshot_since,
}

note_mono : (t : Task) (d : Dict ℕ) (o : String) → get_or 0 o d ≤ get_or 0 o (note_watermark t d)
unfolding note_watermark
note_mono t d o = ground (arith, get-put t.origin o t.sequence d, eq_iff t.origin o)

note-covers :
    (t : Task) (d : Dict ℕ)
    → is_empty t.origin ≡ false
    → t.sequence ≤ get_or 0 t.origin (note_watermark t d)
unfolding note_watermark
note-covers t d h = ground (arith, get-put t.origin t.origin t.sequence d, eq_iff t.origin t.origin)

from_mono :
    (d : Dict ℕ) (ts : List Task) (o : String) → get_or 0 o d ≤ get_or 0 o (watermarks_from d ts)
unfolding watermarks_from
from_mono d [] o = omega arith
from_mono d (t ∷ ts) o = le_trans (note_mono t d o) (from_mono (note_watermark t d) ts o)

abbrev Unnumbered : Task → Type 0
Unnumbered t = (is_empty t.origin || (t.sequence == 0)) ≡ true

abbrev IsCovered : Dict ℕ → Task → Type 0
IsCovered w t = is_empty t.origin ≡ false → t.sequence ≤ get_or 0 t.origin w

from-covers : (d : Dict ℕ) (ts : List Task) → All (IsCovered (watermarks_from d ts)) ts
unfolding watermarks_from
from-covers d [] = tt
from-covers d (t ∷ ts) = (
  λ h. le_trans (note-covers t d h) (from_mono (note_watermark t d) ts t.origin),
  from-covers (note_watermark t d) ts,
)

beyond-Unnumbered : (w : Dict ℕ) (t : Task) → IsCovered w t → is_beyond w t ≡ true → Unnumbered t
beyond-Unnumbered w t c h = ground arith

selected :
    (w : Dict ℕ) (ts : List Task)
    → All (IsCovered w) ts
    → All Unnumbered (map clone_task (select (is_beyond w) ts))
unfolding clone_task
selected w [] h = tt
selected w (t ∷ ts) h =
    let rest = selected w ts h.1 in
    if_elim (λ us. All Unnumbered (map clone_task us)) (is_beyond w t)
      (λ b. (beyond-Unnumbered w t h.0 b, rest)) (λ _. rest)

-- A peer that has this manager's watermarks is sent only tasks that have no origin or no number:
-- the watermarks cover every other one.
pub snapshot_since-snapshot_watermarks :
    (ts : List Task) → All Unnumbered (snapshot_since (snapshot_watermarks ts) ts)
unfolding snapshot_since snapshot_watermarks
snapshot_since-snapshot_watermarks ts = selected (watermarks_from [] ts) ts (from-covers [] ts)
