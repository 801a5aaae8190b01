-- ===== src/Examples/Pages.antt =====
-- internal/syncpage: three records, of which one has no number, and room for two.
use m_aistr.Prelude.{ℕ, ◌+◌, String, List, [], ◌∷◌, arith}
use m_aistr.SyncPage.{Record, Encoded, bytes, next}
use m_aistr.SyncPage.Limits.{IsGood, next-IsGood}

abbrev record_of : String → ℕ → String → Record ℕ
record_of origin sequence key = record {
  value = sequence;
  origin = origin;
  sequence = sequence;
  key = key;
}

abbrev encode : ℕ → Encoded
encode n = bytes (n + 3)

abbrev records : List (Record ℕ)
records = record_of "a" 2 "y" ∷ record_of "a" 1 "x" ∷ record_of "" 0 "z" ∷ []

next-IsGood_example :
    IsGood encode 2 12 (("a", 0) ∷ []) (next encode records (("a", 0) ∷ []) (("a", 2) ∷ []) 12 2)
next-IsGood_example = next-IsGood encode records (("a", 0) ∷ []) (("a", 2) ∷ []) 12 2 (omega arith)
