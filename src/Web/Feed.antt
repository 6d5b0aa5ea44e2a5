-- ===== src/Web/Feed.antt =====
-- ServeICalFeed of internal/api/handlers.go: the contests of a user's platforms as a calendar.
pub mod Escape
use contest_sync.Common.{
  ℕ, zero, suc, ◌+◌, ◌*◌, ◌/◌, ◌^◌, Bool, true, false, ◌||◌, Option, none, some, List, [], ◌∷◌,
  ◌++◌, Bytes, codes, itoa, is_empty, bytes_eq, if◌then◌else◌,
}
use contest_sync.World.Models.{Err, Result, ok, err, Contest}
use contest_sync.World.Calls.{Trace, query_all_platforms, query_platforms, query_feed}
use contest_sync.World.Prog.{Prog, pure, leave, ◌>>=◌, ◌>>◌}
use contest_sync.Sync.Syncer.{pool_of}
use contest_sync.Web.Calls.{
  ℤ, pos, negsuc, Found, row, no_rows, failed, WebServices, Site, syncer_of, Reply, ok_reply,
  refuse, problem, ask,
}
use contest_sync.Web.Preferences.{known_platforms}
use contest_sync.Web.Feed.Escape.{escape_ical_text, carriage_return, line_feed}

-- What the query of the request's address holds: the values of token and user_id.
pub record Query : Type 0 where
  pub token : Bytes
  pub user_id : Bytes

abbrev pub line : Bytes → Bytes
line text = text ++ (carriage_return ∷ line_feed ∷ [])

abbrev pub feed_head : Bytes
feed_head =
    line (codes "BEGIN:VCALENDAR")
    ++ (line (codes "VERSION:2.0")
        ++ (line (codes "PRODID:-//ContestSync//Competitive Programming Calendar Feed//EN")
            ++ (line (codes "CALSCALE:GREGORIAN")
                ++ (line (codes "METHOD:PUBLISH")
                    ++ line (codes "X-WR-CALNAME:ContestSync Contests")))))

abbrev pub host_domain : Bytes → Bytes
host_domain host = if is_empty host then codes "contestsync.0xarchit.is-a.dev" else host

module _ (W : WebServices) where
  unfoldable pub feed_token : ℕ → Bytes
  feed_token user_id = W.sha256_hex (itoa user_id ++ codes "ical_feed_secret")

  -- `computedToken == token || fmt.Sprintf("%d", uID) == token`
  unfoldable pub admits : Bytes → ℕ → Bool
  admits token user_id = bytes_eq (feed_token user_id) token || bytes_eq (itoa user_id) token

  -- the loop over the users
  unfoldable pub find_platforms : Bytes → List (Option (ℕ × List Bytes)) → Option (List Bytes)
  find_platforms token [] = none
  find_platforms token (none ∷ rows) = find_platforms token rows
  find_platforms token (some (user_id, platforms) ∷ rows) =
      let rest = find_platforms token rows in if admits token user_id then some platforms else rest

  unfoldable pub escaped_summary : Contest → Bytes
  escaped_summary c =
      escape_ical_text (codes "[" ++ (W.to_upper c.platform ++ (codes "] " ++ c.name)))

  unfoldable pub escaped_desc : Contest → Bytes
  escaped_desc c = escape_ical_text (
      codes "Platform: "
      ++ (c.platform
          ++ ((line_feed ∷ codes "URL: ")
              ++ (c.url ++ (line_feed ∷ line_feed ∷ codes "Synced by ContestSync")))))

  -- one turn of the loop over the contests
  unfoldable pub event_text : Bytes → Bytes → Contest → Bytes
  event_text now_stamp host c =
      line (codes "BEGIN:VEVENT")
      ++ (line (codes "UID:" ++ (c.id ++ (codes "@" ++ host_domain host)))
          ++ (line (codes "DTSTAMP:" ++ now_stamp)
              ++ (line (codes "SUMMARY:" ++ escaped_summary c)
                  ++ (line (codes "DESCRIPTION:" ++ escaped_desc c)
                      ++ (line (codes "URL:" ++ c.url)
                          ++ (line (codes "LOCATION:" ++ escape_ical_text c.url)
                              ++ (line (codes "DTSTART:" ++ W.ical_stamp c.start_time)
                                  ++ (line (codes "DTEND:" ++ W.ical_stamp c.end_time)
                                      ++ (line (codes "BEGIN:VALARM")
                                          ++ (line (codes "TRIGGER:-PT30M")
                                              ++ (line (codes "ACTION:DISPLAY")
                                                  ++ (line (codes "DESCRIPTION:Reminder")
                                                      ++ (line (codes "END:VALARM")
                                                          ++ line (codes "END:VEVENT"))))))))))))))

  -- the loop over the contests; a row whose Scan fails is left out
  unfoldable pub events_text : Bytes → Bytes → List (Option Contest) → Bytes
  events_text now_stamp host [] = []
  events_text now_stamp host (none ∷ rows) = events_text now_stamp host rows
  events_text now_stamp host (some c ∷ rows) =
      event_text now_stamp host c ++ events_text now_stamp host rows

module _ (h : Site) where
  open h use {web}

  unfoldable pub found_platforms : Option (List Bytes) → Prog (List Bytes)
  found_platforms none = refuse 404 (codes "feed not found")
  found_platforms (some platforms) = pure platforms

  unfoldable pub users_platforms :
      Bytes → Result (List (Option (ℕ × List Bytes))) → Prog (List Bytes)
  users_platforms token (err e) = refuse 500 (codes "database error")
  users_platforms token (ok rows) = found_platforms (find_platforms web token rows)

  -- `if token != ""`
  unfoldable pub platforms_of_token : Bytes → Prog (List Bytes)
  platforms_of_token token = do
    answer ←
        ask (query_all_platforms (pool_of (syncer_of h)))
          (λ t. web.on_query_all_platforms t (pool_of (syncer_of h)))
    users_platforms token answer

  unfoldable pub user_platforms : Found (List Bytes) → Prog (List Bytes)
  user_platforms (row platforms) = pure platforms
  user_platforms no_rows = refuse 404 (codes "feed not found")
  user_platforms (failed e) = refuse 500 (codes "database error")

  -- the user_id that Sscanf has read
  unfoldable pub platforms_of_id : Option ℤ → Prog (List Bytes)
  platforms_of_id (some (pos (suc n))) = do
    answer ←
        ask (query_platforms (pool_of (syncer_of h)) (suc n))
          (λ t. web.on_query_platforms t (pool_of (syncer_of h)) (suc n))
    user_platforms answer
  platforms_of_id (some (pos zero)) = refuse 400 (codes "invalid request parameter")
  platforms_of_id (some (negsuc n)) = refuse 400 (codes "invalid request parameter")
  platforms_of_id none = refuse 400 (codes "invalid request parameter")

  unfoldable pub feed_platforms : Query → Prog (List Bytes)
  feed_platforms q =
      if is_empty q.token
      then (if is_empty q.user_id
          then refuse 400 (codes "missing feed token")
          else platforms_of_id (web.scan_int q.user_id))
      else platforms_of_token q.token

  -- `if len(platforms) == 0 { platforms = extractor.Platforms }`
  unfoldable pub platforms_or_all : List Bytes → List Bytes
  platforms_or_all [] = known_platforms
  platforms_or_all (p ∷ ps) = p ∷ ps

  -- behind the query of the contests
  unfoldable pub feed_of : Bytes → Bytes → Result (List (Option Contest) × Bool) → Prog Reply
  feed_of now_stamp host (err e) = refuse 500 (codes "failed to query contests")
  feed_of now_stamp host (ok (rows, complete)) =
      if complete
      then pure (
          ok_reply
            (feed_head ++ (events_text web now_stamp host rows ++ line (codes "END:VCALENDAR"))))
      else refuse 500 (codes "error generating feed")

  unfoldable pub serve_ical_feed : Query → Bytes → Prog Reply
  serve_ical_feed q host = do
    platforms ← feed_platforms q
    answer ←
        ask (query_feed (pool_of (syncer_of h)) (platforms_or_all platforms))
          (λ t. web.on_query_feed t (pool_of (syncer_of h)) (platforms_or_all platforms))
    (λ w. feed_of (web.ical_stamp (web.now w.trace / 10 ^ 9)) host answer w)
