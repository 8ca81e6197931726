-- ===== src/Tests/Client.antt =====
-- Runs of the client's calls against a server that counts its requests.
use deixic_python.Base.{
  ℕ, zero, suc, ◌+◌, ◌≤◌, true, false, ◌≡◌, refl, Option, none, some, List, [], ◌∷◌, length, Result,
  ok, arith, any, strip, ℕ_discrete,
}
use deixic_python.Base.Text.{text_dec, is_space, lstrip, rstrip}
use deixic_python.Base.Int.{pos}
use deixic_python.Value.{Value}
use deixic_python.Errors.{Content}
use deixic_python.Auth.{
  Credential, fresh, check, check_refresh, refusal, header_refusal, tenant_refusal,
  principal_refusal, clean, has_control, is_control, is_http_token, all_token_chars, is_token_char,
  scope_set, same_set, commit,
}
use deixic_python.Stream.{exhausted}
use deixic_python.Tasks.Types.{Submission, Raised}
use deixic_python.Tasks.Platform.{Session}
use deixic_python.Tasks.Submit.{new_task, submit_from}
use deixic_python.Tasks.Submit.Frame.{submit_from-sends}
use deixic_python.Client.{Config}
use deixic_python.Client.Network.{
  HttpRequest, Reply, Network, Connection, send, send_again, open_call, unary, read_unary,
  http_request,
}
use deixic_python.Client.Network.Replay.{Pays}
use deixic_python.Client.Network.Admitted.{Log, open_call-Log}
use deixic_python.Client.Network.Answered.{IsAnswered, unary-IsAnswered}
use deixic_python.Client.Resources.{Codec}
use deixic_python.Client.Tasks.{task_platform}
use deixic_python.Client.Tasks.Sends.{submit_from-Pays}
use deixic_python.Tests.Handles.{saved}
use deixic_python.Tests.Tasks.{server}

abbrev pub token : Credential
token = record {
  access_token = "token";
  token_type = "Bearer";
  subject = some "svc";
  organization_id = none;
  workspace_id = none;
  scopes = [];
}

abbrev pub answered : Reply
answered = record {
  response = record {
    status_code = 200;
    headers = [];
    content = Content.bytes (7 ∷ []);
    json = none;
  };
  chunks = [];
  ending = exhausted;
}

abbrev rejected : Reply
rejected = record answered {
  response = record { status_code = 401; headers = []; content = Content.other; json = none };
}

-- It refuses the first request with 401, answers the others, and counts them all.
abbrev counting : Network
counting = record {
  World = ℕ;
  can_refresh = true;
  get_credential = λ w. (ok token, w);
  refresh_credential = λ c w. (ok token, w);
  exchange = λ q w. (ok (elim w [ zero ↦ rejected | suc n ↦ answered ]), suc w);
  close = λ reply w. w;
}

abbrev config : Config
config = record {
  organization_id = "org";
  workspace_id = "ws";
  base_url = "https://api.example";
  timeout = 60;
}

abbrev start : Connection ℕ
start = record { identity = fresh "org" "ws"; world = 0 }

-- A budget of two requests.
abbrev Budget : ℕ → ℕ → Type 0
Budget k w = k + w ≤ 2

Budget-Pays : (R : HttpRequest → Type 0) → Pays counting R Budget
Budget-Pays R = record {
  by_exchange = λ q k w r h. omega arith;
  by_get = λ k w h. h;
  by_refresh = λ c k w h. h;
  by_close = λ r k w h. h;
}

-- The count is the length of the record, in which a third request has no place.
counted :
    Log counting config "GetThread" (1 ∷ []) false none start.identity (λ sent w. w ≡ length sent)
counted = record {
  by_exchange = λ c sent w may h. omega (arith, h);
  by_get = λ sent w h. h;
  by_refresh = λ c sent w h. h;
  by_close = λ reply sent w h. h;
}

open_call-Log_example :
    (sent : List Credential) × ((open_call counting config "GetThread"
        (1 ∷ [])
        false
        none
        start).1.world
      ≡ length sent)
    × (length sent ≤ 2)
open_call-Log_example =
    open_call-Log counting config "GetThread" (1 ∷ []) false none (λ sent w. w ≡ length sent) start
      counted refl

-- Both requests of the budget are used.
two-requests : (open_call counting config "GetThread" (1 ∷ []) false none start).1.world ≡ 2
unfolding open_call send send_again http_request check check_refresh refusal header_refusal
    tenant_refusal principal_refusal clean has_control is_control is_http_token all_token_chars
    is_token_char scope_set same_set commit any strip lstrip rstrip is_space text_dec ℕ_discrete
two-requests = refl

abbrev no_json : List ℕ → Option Value
no_json b = none

abbrev number : List ℕ → Option ℕ
number [] = none
number (x ∷ xs) = some x

abbrev called : Result Raised ℕ × Connection ℕ
called = unary counting config no_json number "GetThread" (1 ∷ []) none start

seven : called ≡ (ok 7, called.1)
unfolding unary read_unary open_call send send_again http_request check check_refresh refusal
    header_refusal tenant_refusal principal_refusal clean has_control is_control is_http_token
    all_token_chars is_token_char scope_set same_set commit any strip lstrip rstrip is_space
    text_dec ℕ_discrete
seven = refl

unary-IsAnswered_example : IsAnswered no_json number counting config "GetThread" (1 ∷ []) none 7
unary-IsAnswered_example =
    unary-IsAnswered no_json number counting config "GetThread" (1 ∷ []) none start called.1 7 seven

-- A codec that serialises to nothing and parses one answer.
abbrev codec : Codec
codec = record {
  WatchEvents = Unit;
  serialize = λ m. [];
  parse_thread = λ b. none;
  parse_events = λ b. none;
  parse_watch = λ b. none;
  parse_accepted = λ b. some (record { turn_id = "t1"; sequence = pos 4; replay_cursor = pos 120 });
  parse_voiced = λ b. none;
  parse_receipt = λ b. none;
  parse_done = λ b. some tt;
  parse_catalog = λ b. none;
  json_loads = no_json;
}

abbrev task : Session (Connection ℕ)
task = record { task = new_task saved; world = start }

submit_from-Pays_example :
    (k : ℕ) × (k
        + (submit_from
            (task_platform counting config codec (λ w. (0, w)) (λ e. []))
            none
            Submission.unacknowledged
            task).1.world.world
      ≤ 2)
submit_from-Pays_example =
    submit_from-Pays counting config codec (λ w. (0, w)) (λ e. []) none Budget
      Submission.unacknowledged task (Budget-Pays _) tt tt (omega arith)

-- A count of 0 becomes one of 1 at most.
submit_from-sends_example :
    (submit_from server none Submission.unacknowledged
      (record { task = new_task saved; world = 0 })).1.world
    ≤ 1
submit_from-sends_example =
    submit_from-sends server none saved (λ w. w ≤ 0) (λ w. w ≤ 1) (λ voice w e i. omega arith)
      (λ w i. omega arith) tt tt Submission.unacknowledged
      (record { task = new_task saved; world = 0 }) refl (omega arith)
