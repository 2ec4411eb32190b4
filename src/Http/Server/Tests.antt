-- ===== src/Http/Server/Tests.antt =====
-- The server at concrete input.
use suda_gureum.Base.{◌≡◌, refl, true, false, [], ◌∷◌, codes}
use suda_gureum.Base.AssocMap.{find}
use suda_gureum.Http.Connection.Tests.{env, info_of, waiting}
use suda_gureum.Http.Connection.Upgrade.Tests.{
  upgrading, headers_of, upgrade_calls, upgrade_read, no_version-UpgradeReads,
}
use suda_gureum.Http.Connection.Upgrade.{lacks_header}
use suda_gureum.Http.Server.Attack.{Target, targets-IsDead}
use suda_gureum.Http.Server.Serving.{Serving}
use suda_gureum.Http.Server.{Accepted, Server, Event, IsIdle, listening, handle_accepted}
use suda_gureum.Threads.Exhausted.{IsDead}
use suda_gureum.Threads.{Service, new_service, run, run_impl, Reach}
use suda_gureum.WebSocket.Parser.Tests.{plain_json}

-- Two connections that read, in two threads.
abbrev reading : Accepted
reading = record { ssl = true; handshaking = false; secured = true; conn = waiting }

abbrev busy : Service Server
busy = record {
  state = record (listening true 5) { accepted = reading ∷ reading ∷ [] };
  running = 2;
  stopped = false;
  errors = [];
}

reading-Target : Target env plain_json reading
unfolding lacks_header find
reading-Target = record {
  reading = refl;
  input = codes "GET ";
  x = upgrade_read (headers_of (codes "websocket"));
  cbs = upgrade_calls (headers_of (codes "websocket"));
  info = info_of true true;
  at = 4;
  request = upgrading (codes "/") (headers_of (codes "websocket"));
  reads_one = no_version-UpgradeReads;
  lacks = refl;
}

targets-IsDead_example :
    (u : Service Server) × Reach (Event env plain_json) IsIdle busy u
    × (u.stopped ≡ false)
    × ((w : Service Server) → Reach (Event env plain_json) IsIdle u w → IsDead u w)
targets-IsDead_example =
    targets-IsDead env plain_json (reading ∷ reading ∷ []) busy [] [] refl
      (reading-Target, (reading-Target, tt)) refl refl

-- A service of four threads after its first accept, and that service.
abbrev four_threads : Service Server
four_threads = run 4 (new_service (listening true 5))

abbrev after_accept : Service Server
after_accept =
    run_impl (handle_accepted false (record (listening true 5) { accept_pending = false }))
      four_threads
