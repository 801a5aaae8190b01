-- ===== src/Router/ClientLimits/Bounds.antt =====
-- internal/orchestrator/router_client_limits.go: the limits hold for every client.
use m_aistr.Prelude.{◌≤◌, ltb, ◌≡◌, true}
use m_aistr.Router.ClientLimits.{Client, Limits}

-- A client within the limits, of which 0 is none.
abbrev pub IsWithin : Limits → Client → Type 0
IsWithin l c =
    (ltb 0 l.max_concurrent ≡ true → c.active ≤ l.max_concurrent)
    × (ltb 0 l.requests_per_minute ≡ true → c.requests ≤ l.requests_per_minute)
