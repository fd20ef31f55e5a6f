-- ===== src/WebProxy/Session/Carrier/Violations.antt =====
-- webproxy/session.go: which answers of pollCarrier end the session, and of a carrier in all.
use tel_ego_openwrt.WebProxy.Frame.{Frame}
use tel_ego_openwrt.WebProxy.StreamHistory as History
use tel_ego_openwrt.WebProxy.Session.{Session}
