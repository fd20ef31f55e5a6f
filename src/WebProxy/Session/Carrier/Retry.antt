-- ===== src/WebProxy/Session/Carrier/Retry.antt =====
-- webproxy/session.go: a committed uplink that is sent again.
use tel_ego_openwrt.Base.{ℕ, List, false, ◌≡◌}
use tel_ego_openwrt.WebProxy.Frame.{Frame}
use tel_ego_openwrt.WebProxy.Session.{Session}
use tel_ego_openwrt.WebProxy.Session.Batch.{Batch}
use tel_ego_openwrt.WebProxy.Session.Carrier.{record_sequence}

-- The session is what recording the sequence makes of an open one.
Recorded : Session → ℕ → ℕ → ℕ → List ℕ → Type 0
Recorded after id serial sequence sum =
    (t : Session) × ((t.closed ≡ false) × (record_sequence t id serial sequence sum ≡ after))
