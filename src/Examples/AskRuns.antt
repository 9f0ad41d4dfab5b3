-- ===== src/Examples/AskRuns.antt =====
-- A member asks an Agent on the command line.
use peercontext.Common.{◌≡◌, refl, none, some, [], ◌∷◌, arith, nat_eq}
use peercontext.Common.Int.{pos}
use peercontext.Errors.{ok}
use peercontext.Protocol.Model.{Response, RequestStatus}
use peercontext.Service.Asking.{request_timeout}
use peercontext.Cli.{AskRun, exit_ok, milliseconds, run_ask}
use peercontext.Cli.Asking.{
  IsAnswered, IsTimeoutOf, run_ask-IsAnswered, request_timeout-milliseconds,
}

abbrev reply : Response
reply = record {
  schema_version = 2;
  request_id = "req_1";
  status = RequestStatus.succeeded;
  answer = 1 ∷ [];
}

abbrev asking : AskRun
asking = record {
  parse = λ _. some (record { timeout = pos 300_000_000_000; request_id = ""; left_over = 0 });
  stdin = ok (1 ∷ []);
  control = λ _. ok reply;
  written = none;
}

went_well : (run_ask asking ("a1" ∷ [])).1 ≡ exit_ok
unfolding run_ask
went_well = refl

run_ask-IsAnswered_example : IsAnswered asking ("a1" ∷ []) (run_ask asking ("a1" ∷ [])).0
run_ask-IsAnswered_example = run_ask-IsAnswered asking ("a1" ∷ []) went_well

request_timeout-milliseconds_example :
    IsTimeoutOf 1_500_000 (request_timeout (pos (milliseconds 1_500_000)))
request_timeout-milliseconds_example =
    request_timeout-milliseconds 1_500_000 (omega arith) (omega arith)
