-- ===== src/Discovery/Ranks.antt =====
-- internal/discovery/discovery.go: outranks is a strict order of announcements.
use m_aistr.Prelude.{◌≡◌, ap, ◌∙◌, arith, true, false, Bool-cases, inl, inr}
use m_aistr.Prelude.Text.{str_lt}
use m_aistr.Prelude.Order.{str_lt_asymm, str_lt_total, str_lt_trans}
use m_aistr.Discovery.{Announcement, outranks}

pub outranks_asymm : (a b : Announcement) → outranks a b ≡ true → outranks b a ≡ false
unfolding outranks
outranks_asymm a b h = ground (arith, h, str_lt_asymm a.id b.id)

pub outranks_trans :
    (a b c : Announcement) → outranks a b ≡ true → outranks b c ≡ true → outranks a c ≡ true
unfolding outranks
outranks_trans a b c h k = ground (arith, h, k, str_lt_trans a.id b.id c.id)

pub outranks_total :
    (a b : Announcement) → outranks a b ≡ false → outranks b a ≡ false → a.id ≡ b.id
unfolding outranks
outranks_total a b h k = str_lt_total a.id b.id (ground (arith, h, k)) (ground (arith, h, k))

same_rank :
    (a b c : Announcement)
    → outranks a b ≡ false
    → outranks b a ≡ false
    → outranks a c ≡ outranks b c
unfolding outranks
same_rank a b c h k =
    let same : a.id ≡ b.id = str_lt_total a.id b.id (ground (arith, h, k)) (ground (arith, h, k)) in
    ground (arith, h, k, ap (λ z. str_lt z c.id) same)

pub not_outranks_trans :
    (a b c : Announcement) → outranks a b ≡ false → outranks b c ≡ false → outranks a c ≡ false
not_outranks_trans a b c h k = elim (Bool-cases (outranks b a)) [
  | inl above ↦ ground (arith, k, above, outranks_trans b a c)
  | inr level ↦ same_rank a b c h level ∙ k
]

pub not_outranks_self : (a : Announcement) → outranks a a ≡ false
not_outranks_self a = ground (arith, outranks_asymm a a)
