-- ===== src/Queue/Extraction.antt =====
-- handleExtraction and logDatabaseContestsTelemetry of internal/queue/amqp.go, and
-- InvalidateContestsCache: the contests of a platform are fetched and stored. The counter of the
-- metrics is left out.
use contest_sync.Common.{
  ℕ, ◌+◌, ◌≡◌, refl, Bool, true, false, ◌&&◌, Option, none, some, List, [], ◌∷◌, ◌++◌, map, Bytes,
  codes, ltb, if◌then◌else◌, if_both,
}
use contest_sync.World.Models.{Err, Result, ok, err, Contest, contests_cache_key}
use contest_sync.World.Calls.{Services, prune_contests, event, Trace, Entry, send_batch, exec}
use contest_sync.World.Prog.{World, Prog, pure, leave, ◌>>=◌, ◌>>◌, error_of, Flow}
use contest_sync.World.Api.{execute, upsert_contests, count_contests, del, telegram}

abbrev total : List (Option (Bytes × ℕ)) → ℕ
total [] = 0
total (none ∷ rest) = total rest
total (some (platform, n) ∷ rest) = n + total rest

-- `fmt.Errorf("unknown platform: %s", platform)`
abbrev unknown_platform : Bytes → Err
unknown_platform platform = record { text = codes "unknown platform: " ++ platform; code = none }

-- the message, behind the query
abbrev report : Bool → Result (List (Option (Bytes × ℕ))) → Prog (Unit {0})
report has_telegram (err e) = pure tt
report has_telegram (ok rows) =
    if has_telegram && ltb 0 (total rows)
    then telegram (event (codes "CONTEST_EXTRACTION_SUCCESS"))
    else pure tt

module _ (S : Services) where
  -- `has_telegram` tells whether OnTelegramEvent is set.
  unfoldable pub log_database_contests_telemetry : Bool → Prog (Unit {0})
  log_database_contests_telemetry has_telegram = do
    answer ← count_contests S
    report has_telegram answer

  -- `has_valkey` tells whether Syncer and its Valkey are set.
  unfoldable pub invalidate_contests_cache : Bool → Bytes → Prog (Option Err)
  invalidate_contests_cache has_valkey platform =
      if has_valkey then del S (contests_cache_key platform) else pure none

  -- behind the batch, with its error
  abbrev pub stored : Bool → Bool → Bytes → Option Err → Prog (Unit {0})
  stored has_valkey has_telegram platform (some e) = leave (some e)
  stored has_valkey has_telegram platform none = do
    invalidate_contests_cache has_valkey platform
    log_database_contests_telemetry has_telegram

  -- from the pruning on, for the contests that the fetcher has given with their durations
  unfoldable pub store_contests : Bool → Bool → Bytes → List (Contest × ℕ) → Prog (Unit {0})
  store_contests has_valkey has_telegram platform contests = do
    execute S (prune_contests platform (map (λ c. c.0.id) contests))
    failed ← upsert_contests S contests
    stored has_valkey has_telegram platform failed

  -- behind the look at the map of fetchers, with what the fetcher returns
  unfoldable pub fetched :
      Bool → Bool → Bytes → Option (Result (List (Contest × ℕ))) → Prog (Unit {0})
  fetched has_valkey has_telegram platform none = leave (some (unknown_platform platform))
  fetched has_valkey has_telegram platform (some (err e)) = leave (some e)
  fetched has_valkey has_telegram platform (some (ok [])) = pure tt
  fetched has_valkey has_telegram platform (some (ok (c ∷ cs))) =
      store_contests has_valkey has_telegram platform (c ∷ cs)

  -- handleExtraction; `fetchers` is the map of fetchers with what each of them returns
  unfoldable pub handle_extraction :
      (Bytes → Option (Result (List (Contest × ℕ)))) → Bool → Bool → Bytes → Prog (Unit {0})
  handle_extraction fetchers has_valkey has_telegram platform =
      fetched has_valkey has_telegram platform (fetchers platform)

-- the calls that write to the database
abbrev pub changes : Trace → List Entry
changes [] = []
changes (exec q ∷ t) = exec q ∷ changes t
changes (send_batch cs ∷ t) = send_batch cs ∷ changes t
changes (_ ∷ t) = changes t

-- What a run leaves: its error, and the statements that it has executed.
abbrev pub error_and_changes : Flow (Unit {0}) × World → Option Err × List Entry
error_and_changes (f, w) = (error_of f, changes w.trace)

module _ (S : Services) (has_valkey has_telegram : Bool) (platform : Bytes) (w : World) where
  -- the state behind the pruning
  abbrev pub prune_of : List (Contest × ℕ) → Entry
  prune_of cs = exec (prune_contests platform (map (λ c. c.0.id) cs))

  report_lem :
      (r : Result (List (Option (Bytes × ℕ)))) (w' : World)
      → error_and_changes (report has_telegram r w') ≡ (none, changes w'.trace)
  unfolding ◌>>=◌
  report_lem (err e) w' = refl
  report_lem (ok rows) w' =
      if_both (λ (m : Prog (Unit {0})). error_and_changes (m w') ≡ (none, changes w'.trace))
        (has_telegram && ltb 0 (total rows)) refl refl

  telemetry_lem :
      (w' : World)
      → error_and_changes (log_database_contests_telemetry S has_telegram w')
        ≡ (none, changes w'.trace)
  unfolding log_database_contests_telemetry ◌>>=◌
  telemetry_lem w' = report_lem (S.on_query_counts w'.trace) _

  stored_lem :
      (e : Option Err) (w' : World)
      → error_and_changes (stored S has_valkey has_telegram platform e w') ≡ (e, changes w'.trace)
  unfolding invalidate_contests_cache ◌>>=◌
  stored_lem (some e) w' = refl
  stored_lem none w' = valkey has_valkey
    where
      valkey :
          (b : Bool)
          → error_and_changes (stored S b has_telegram platform none w') ≡ (none, changes w'.trace)
      valkey true = telemetry_lem _
      valkey false = telemetry_lem w'

  -- the error and the statements that a fetcher's result asks for
  abbrev pub asked_for : Option (Result (List (Contest × ℕ))) → Option Err × List Entry
  asked_for none = (some (unknown_platform platform), changes w.trace)
  asked_for (some (err e)) = (some e, changes w.trace)
  asked_for (some (ok [])) = (none, changes w.trace)
  asked_for (some (ok (c ∷ cs))) = (
    S.on_send_batch (prune_of (c ∷ cs) ∷ w.trace) (c ∷ cs),
    send_batch (c ∷ cs) ∷ prune_of (c ∷ cs) ∷ changes w.trace,
  )

  fetched_lem :
      (r : Option (Result (List (Contest × ℕ))))
      → error_and_changes (fetched S has_valkey has_telegram platform r w) ≡ asked_for r
  unfolding fetched store_contests ◌>>=◌
  fetched_lem none = refl
  fetched_lem (some (err e)) = refl
  fetched_lem (some (ok [])) = refl
  fetched_lem (some (ok (c ∷ cs))) = stored_lem _ _

  -- A fetcher that gives contests is followed by two statements, the pruning with their ids and then
  -- the batch with all of them, and by no other; the error is the batch's, whether the pruning has
  -- succeeded or not. Without contests no statement is executed, and the error is the fetcher's, or
  -- that of an unknown platform.
  pub handle_extraction_lem :
      (fetchers : Bytes → Option (Result (List (Contest × ℕ))))
      → error_and_changes (handle_extraction S fetchers has_valkey has_telegram platform w)
        ≡ asked_for (fetchers platform)
  unfolding handle_extraction
  handle_extraction_lem fetchers = fetched_lem (fetchers platform)
