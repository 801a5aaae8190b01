-- ===== src/Router/Gate/Admission.antt =====
-- internal/orchestrator/node_dispatch_gate.go: how much work the gate lets through.
use m_aistr.Prelude.{ℕ, suc, ◌≡◌, refl, ap, ◌∙◌, arith, true, false, List, [], ◌∷◌}
use m_aistr.Prelude.Integers.{pos}
use m_aistr.Router.Gate.{
  Gate, new_node_dispatch_gate, begin_refresh, end_refresh, decrement, set_capacity, admit, release,
}

-- A place that is taken counts, and an attempt that is refused changes nothing.
pub taken-active :
    (g : Gate) (n : ℕ) → g.active ≡ pos n → (admit g).1 ≡ true → (admit g).0.active ≡ pos (suc n)
unfolding admit
taken-active g n h k = ground arith

pub refused-active : (g : Gate) → (admit g).1 ≡ false → (admit g).0.active ≡ g.active
unfolding admit
refused-active g h = ground arith

pub observed-active :
    (limit available reported : ℕ) (g : Gate)
    → (set_capacity limit available reported g).active ≡ g.active
unfolding set_capacity
observed-active limit available reported g = ground arith

pub data Event : Type 0 where
  begin end_ give_back attempt : Event
  observe : ℕ → ℕ → ℕ → Event

-- The gate after an event, and the places that callers hold; a caller gives back what it holds.
pub data Run : List Event → Gate → ℕ → Type 0 where
  start : (limit : ℕ) → Run [] (new_node_dispatch_gate limit) 0
  begun : (es : List Event) (g : Gate) (n : ℕ) → Run es g n → Run (begin ∷ es) (begin_refresh g).0 n
  ended : (es : List Event) (g : Gate) (n : ℕ) → Run es g n → Run (end_ ∷ es) (end_refresh g) n
  observed :
      (es : List Event) (g : Gate) (n limit available reported : ℕ)
      → Run es g n
      → Run (observe limit available reported ∷ es) (set_capacity limit available reported g) n
  taken :
      (es : List Event) (g : Gate) (n : ℕ)
      → Run es g n
      → (admit g).1 ≡ true
      → Run (attempt ∷ es) (admit g).0 (suc n)
  turned_away :
      (es : List Event) (g : Gate) (n : ℕ)
      → Run es g n
      → (admit g).1 ≡ false
      → Run (attempt ∷ es) (admit g).0 n
  given_back :
      (es : List Event) (g : Gate) (n : ℕ) → Run es g (suc n) → Run (give_back ∷ es) (release g) n

-- The gate counts the places that are held: in every run in which a caller gives back only what
-- it holds, `active` is the number of places taken and not given back, and so never negative.
pub Run-active : (es : List Event) (g : Gate) (n : ℕ) → Run es g n → g.active ≡ pos n
unfolding begin_refresh end_refresh release
Run-active _ _ _ (start limit) = refl
Run-active _ _ _ (begun es g n r) = Run-active es g n r
Run-active _ _ _ (ended es g n r) = Run-active es g n r
Run-active _ _ _ (observed es g n limit available reported r) =
    observed-active limit available reported g ∙ Run-active es g n r
Run-active _ _ _ (taken es g n r h) = taken-active g n (Run-active es g n r) h
Run-active _ _ _ (turned_away es g n r h) = refused-active g h ∙ Run-active es g n r
Run-active _ _ _ (given_back es g n r) = ap decrement (Run-active es g (suc n) r)
