-- ===== src/Web/EndSession/Heard.antt =====
-- Who is told of a logout, for certain (`notifyBackChannel` of
-- apps/server/internal/web/end_session.go).
use pf_identity.Common.{List}
use pf_identity.Config.{Config}
use pf_identity.Platform.{Platform}
use pf_identity.World.{World}
