-- ===== src/SyncPage/Limits.antt =====
-- internal/syncpage/page.go: a page stays within its limit, and no cursor goes back.
use m_aistr.Prelude.{
  ℕ, ◌+◌, ◌≤◌, ltb, leb, ◌≡◌, ◌≢◌, refl, arith, String, eq_iff, true, false, ◌||◌, List, [], ◌∷◌,
  ◌++◌, if_elim,
}
use m_aistr.Prelude.Dict.{Dict, get_or, put, get-put}
use m_aistr.SyncPage.{
  Record, Encoded, bytes, failure, Page, page, failed, fill, add, is_first, next,
}

module _ {T : Type 0} (encode : T → Encoded) where
  -- The bytes of values on a page; a value without an encoding is on none.
  abbrev pub encoded_length : Encoded → ℕ
  encoded_length (bytes n) = n + 1
  encoded_length (failure e) = 0

  abbrev pub size_of : List T → ℕ
  size_of [] = 0
  size_of (v ∷ vs) = encoded_length (encode v) + size_of vs

  size_of-append :
      (vs : List T) (v : T) (n : ℕ)
      → encode v ≡ bytes n
      → size_of (vs ++ v ∷ []) ≡ size_of vs + (n + 1)
  size_of-append [] v n h = ground (arith, h)
  size_of-append (w ∷ vs) v n h = ground (arith, size_of-append vs v n h)

  -- What holds of a page that starts from a cursor.
  abbrev pub IsGood : ℕ → ℕ → Dict ℕ → Page T → Type 0
  IsGood base limit cursor (failed e) = Unit
  IsGood base limit cursor (page values next_cursor more) =
      (base + size_of values ≤ limit)
      × ((origin : String) → get_or 0 origin cursor ≤ get_or 0 origin next_cursor)
      × (more ≡ true → values ≢ [])

  module _ (upper : String → ℕ) (max_bytes base : ℕ) where
    is_first-false : (vs : List T) → is_first vs ≡ false → vs ≢ []
    unfolding is_first
    is_first-false [] h e = absurd (cc)
    is_first-false (v ∷ vs) h e = cc

    -- A record that is due ends the page or goes on it.
    add-IsGood :
        (r : Record T) (values : List T) (size : ℕ) (start cursor : Dict ℕ) (e : Encoded)
        (rest : ℕ → Page T)
        → size ≡ base + size_of values
        → size ≤ max_bytes
        → ((origin : String) → get_or 0 origin start ≤ get_or 0 origin cursor)
        → ((n : ℕ)
            → e ≡ bytes n
            → size + (n + 1) ≤ max_bytes
            → IsGood base max_bytes start (rest n))
        → IsGood base max_bytes start (add encode upper max_bytes r values size cursor e rest)
    unfolding add
    add-IsGood r values size start cursor (failure x) rest s b c go = tt
    add-IsGood r values size start cursor (bytes n) rest s b c go =
        if_elim {A = Page T} (IsGood base max_bytes start) (ltb max_bytes (size + (n + 1)))
          (λ _.
            if_elim {A = Page T} (IsGood base max_bytes start) (is_first values) (λ _. tt)
              (λ more. (omega (arith, s, b), c, λ _. is_first-false values more)))
          (λ fits. go n refl (ground (arith, fits)))

    forth :
        (r : Record T) (start cursor : Dict ℕ)
        → ((origin : String) → get_or 0 origin start ≤ get_or 0 origin cursor)
        → (leb r.sequence (get_or 0 r.origin cursor) || ltb (upper r.origin) r.sequence) ≡ false
        → (origin : String)
        → get_or 0 origin start ≤ get_or 0 origin (put r.origin r.sequence cursor)
    forth r start cursor c due origin =
        ground
          (arith, due, c origin, get-put r.origin origin r.sequence cursor, eq_iff r.origin origin)

    fill-IsGood :
        (rs : List (Record T)) (values : List T) (size : ℕ) (start cursor : Dict ℕ)
        → size ≡ base + size_of values
        → size ≤ max_bytes
        → ((origin : String) → get_or 0 origin start ≤ get_or 0 origin cursor)
        → IsGood base max_bytes start (fill encode upper max_bytes rs values size cursor)
    unfolding fill
    fill-IsGood [] values size start cursor s b c = (omega (arith, s, b), c, λ e. absurd (cc))
    fill-IsGood (r ∷ rs) values size start cursor s b c =
        if_elim {A = Page T} (IsGood base max_bytes start)
          (leb r.sequence (get_or 0 r.origin cursor) || ltb (upper r.origin) r.sequence)
          (λ _. fill-IsGood rs values size start cursor s b c)
          (λ due. add-IsGood r values size start cursor (encode r.value) _ s b c (λ n q fits.
            fill-IsGood rs (values ++ r.value ∷ []) (size + (n + 1)) start
              (put r.origin r.sequence cursor) (omega (arith, s, size_of-append values r.value n q))
              fits (forth r start cursor c due)))

  -- A page is within its limit of bytes, the base included, if the base is; no origin's cursor goes
  -- back; and where records are said to remain, the page holds one at least.
  pub next-IsGood :
      (records : List (Record T)) (cursor upper : Dict ℕ) (max_bytes base : ℕ)
      → base ≤ max_bytes
      → IsGood base max_bytes cursor (next encode records cursor upper max_bytes base)
  unfolding next
  next-IsGood records cursor upper max_bytes base h =
      fill-IsGood _ max_bytes base _ [] base cursor cursor (omega arith) h (λ o. omega arith)
