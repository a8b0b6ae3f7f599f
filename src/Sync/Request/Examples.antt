-- ===== src/Sync/Request/Examples.antt =====
-- Requests to a server that is busy for a while.
use gosn_v.Prelude.{◌≡◌, none, some, [], ◌∷◌, length, ltb, arith, if◌then◌else◌}
use gosn_v.Session.Types.{replied, Network, Decoder, transport}
use gosn_v.Session.Examples.{a_session}
use gosn_v.Sync.Request.{make_sync_request, first_request, retry_request, refuse}
use gosn_v.Sync.Request.Attempts.{IsBusyFor, make_sync_request-IsBusyFor, make_sync_request_late}

abbrev busy_twice : Network
busy_twice sent request =
    if ltb (length sent) 2 then replied 429 (some "") else replied 200 (some "{}")

abbrev no_decoder : Decoder
no_decoder body = none

busy_twice-IsBusyFor : IsBusyFor busy_twice [] 2 "{}"
busy_twice-IsBusyFor = record { busy = λ h r k. ground arith; ready = λ h r k. ground arith }

-- A server that would answer the sixth request.
abbrev busy_long : Network
busy_long sent request =
    if ltb (length sent) 5 then replied 429 (some "") else replied 200 (some "{}")

make_sync_request_late_example : make_sync_request busy_long no_decoder a_session "{}" [] ≡ (
  (refuse (transport "context deadline exceeded"), a_session),
  first_request a_session "{}"
      ∷ retry_request a_session "{}"
      ∷ retry_request a_session "{}"
      ∷ retry_request a_session "{}"
      ∷ retry_request a_session "{}"
      ∷ [],
)
make_sync_request_late_example =
    make_sync_request_late busy_long no_decoder a_session "{}" [] (λ h r k. ground arith)

make_sync_request-IsBusyFor_example :
    (make_sync_request busy_twice no_decoder a_session "{}" []).0
    ≡ (record { content = some "{}"; status = 200; error = none }, a_session)
make_sync_request-IsBusyFor_example =
    make_sync_request-IsBusyFor busy_twice no_decoder a_session "{}" [] 2 "{}" busy_twice-IsBusyFor
      (omega arith)
