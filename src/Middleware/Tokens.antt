-- ===== src/Middleware/Tokens.antt =====
-- When CSRFMiddleware lets a request go on.
use contest_sync.Common.{
  ◌≡◌, ◌≢◌, ◌↔◌, true, Option, none, some, [], ◌∷◌, Bytes, bytes_eq_iff, is_empty, arith, ap,
}
use contest_sync.Middleware.{Request, has_cookie, csrf_matches, csrf_passes}

csrf_matches_iff :
    (expected : Option Bytes) (actual : Bytes)
    → (csrf_matches expected actual ≡ true) ↔ ((expected ≡ some actual) × (actual ≢ []))
unfolding csrf_matches is_empty
csrf_matches_iff none actual = ground arith
csrf_matches_iff (some []) actual = ground arith
csrf_matches_iff (some (c ∷ t)) actual =
    let (there, back) = bytes_eq_iff (c ∷ t) actual in
    (λ h. (ap some (there h), λ e. ground (arith, there h)), λ (e, ne). back (ground arith))

-- A request with a session goes on exactly if the session has a token and the request carries the
-- same one, and that is not empty.
pub csrf_passes_lem :
    (r : Request) (expected : Option Bytes)
    → has_cookie r ≡ true
    → (csrf_passes r expected ≡ true) ↔ ((expected ≡ some r.x_csrf_token) × (r.x_csrf_token ≢ []))
unfolding csrf_passes
csrf_passes_lem r expected h = rw h (csrf_matches_iff expected r.x_csrf_token)
