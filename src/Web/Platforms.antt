-- ===== src/Web/Platforms.antt =====
-- GetPlatforms of internal/api/handlers.go. The encoding of the platforms does not fail.
use contest_sync.Common.{Option, none, some, Bytes}
use contest_sync.World.Models.{platforms_cache_key, platforms_cache_ttl}
use contest_sync.World.Prog.{Prog, pure, ◌>>=◌, ◌>>◌}
use contest_sync.Sync.Load.{cached, store}
use contest_sync.Web.Calls.{Site, syncer_of}
use contest_sync.Web.Preferences.{known_platforms}

module _ (h : Site) where
  open h use {services, codec}

  unfoldable pub platforms_unless : Option Bytes → Prog Bytes
  platforms_unless (some reply) = pure reply
  platforms_unless none = do
    store services codec (syncer_of h) platforms_cache_key (h.web.marshal_platforms known_platforms)
        platforms_cache_ttl
    pure (h.web.marshal_platforms known_platforms)

  -- the value is the reply
  unfoldable pub get_platforms : Prog Bytes
  get_platforms = do
    val ← cached services codec (syncer_of h) platforms_cache_key
    platforms_unless val
