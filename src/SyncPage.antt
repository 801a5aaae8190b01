-- ===== src/SyncPage.antt =====
-- internal/syncpage/page.go: pages of records that are synchronized, each within a limit of bytes.
pub mod Limits
use m_aistr.Prelude.{
  ℕ, suc, ◌+◌, ◌==◌, ltb, leb, String, str_eq, Bool, true, false, ◌||◌, Option, none, some, List,
  [], ◌∷◌, ◌++◌, is_empty, select, sort_by, not, if◌then◌else◌,
}
use m_aistr.Prelude.Text.{str_lt}
use m_aistr.Prelude.Dict.{Dict, get_or, put}

pub record Record (T : Type 0) : Type 0 where
  pub value : T
  pub origin : String
  pub sequence : ℕ
  pub key : String

-- `encode_error` is what the encoder returns, `too_large` the record that fits on no page.
pub data PageError : Type 0 where
  encode_error : String → PageError
  too_large : String → String → PageError

-- The length of an encoding, or the encoder's error.
pub data Encoded : Type 0 where
  bytes : ℕ → Encoded
  failure : String → Encoded

-- The values of the page, the next cursor, and whether records remain.
pub data Page (T : Type 0) : Type 0 where
  page : List T → Dict ℕ → Bool → Page T
  failed : PageError → Page T

-- The watermark that ends an origin's records.
upper_of : Dict ℕ → ℕ → String → ℕ
upper_of upper legacy_upper origin =
    if str_eq origin "legacy" then legacy_upper else get_or 0 origin upper

module _ {T : Type 0} where
  abbrev is_legacy : Record T → Bool
  is_legacy r = is_empty r.origin || (r.sequence == 0)

  -- Records of old peers are numbered from 1 in the order of their keys.
  number_legacy : ℕ → List (Record T) → List (Record T)
  number_legacy n [] = []
  number_legacy n (r ∷ rs) = record r { origin = "legacy"; sequence = n } ∷ number_legacy (suc n) rs

  highest : ℕ → List (Record T) → ℕ
  highest n [] = n
  highest n (r ∷ rs) = highest (if ltb n r.sequence then r.sequence else n) rs

  comes_before : Record T → Record T → Bool
  comes_before left right =
      if not (str_eq left.origin right.origin)
      then str_lt left.origin right.origin
      else if not (left.sequence == right.sequence)
      then ltb left.sequence right.sequence
      else str_lt left.key right.key

  is_first : List T → Bool
  is_first [] = true
  is_first (v ∷ vs) = false

  -- `upper` is the limit of a record's origin, that of old records included.
  module _ (encode : T → Encoded) (upper : String → ℕ) (max_bytes : ℕ) where
    -- What becomes of a record that is due: `rest` fills the page with the records behind it, from
    -- the length of its encoding.
    add : Record T → List T → ℕ → Dict ℕ → Encoded → (ℕ → Page T) → Page T
    unfolding is_first
    add r values size cursor (failure e) rest = failed (encode_error e)
    add r values size cursor (bytes n) rest =
        if ltb max_bytes (size + (n + 1))
        then (if is_first values
            then failed (too_large r.key r.origin)
            else page values cursor true)
        else rest n

    -- The loop over the eligible records.
    unfoldable pub fill : List (Record T) → List T → ℕ → Dict ℕ → Page T
    unfolding add
    fill [] values size cursor = page values cursor false
    fill (r ∷ rs) values size cursor =
        let skip = fill rs values size cursor in
        if leb r.sequence (get_or 0 r.origin cursor) || ltb (upper r.origin) r.sequence
        then skip
        else add r values size cursor (encode r.value) (λ n.
          fill rs (values ++ r.value ∷ []) (size + (n + 1)) (put r.origin r.sequence cursor))

  -- Next
  unfoldable pub next : (T → Encoded) → List (Record T) → Dict ℕ → Dict ℕ → ℕ → ℕ → Page T
  unfolding number_legacy highest comes_before upper_of
  next encode records cursor upper max_bytes base_bytes =
      let old = number_legacy 1 (sort_by (λ a b. str_lt a.key b.key) (select is_legacy records)) in
      let legacy_upper = highest (get_or 0 "legacy" upper) old in
      let eligible = sort_by comes_before (select (λ r. not (is_legacy r)) records ++ old) in
      fill encode (upper_of upper legacy_upper) max_bytes eligible [] base_bytes cursor
