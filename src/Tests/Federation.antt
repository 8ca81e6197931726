-- ===== src/Tests/Federation.antt =====
-- Runs of the federated provider against an Identity that is unavailable.
use deixic_python.Base.{
  ℕ, zero, suc, ◌+◌, ◌-◌, ◌*◌, ◌/◌, ◌^◌, ◌≤◌, max, String, true, false, ◌≡◌, refl, ◌⊎◌, none, some,
  List, [], ◌∷◌, length, Result, ok, err, arith, any, strip, ltb, ℕ_discrete, length-append,
  text_eq, is_empty,
}
use deixic_python.Base.Text.{
  text_dec, is_space, lstrip, rstrip, lowers_to, lower, lower_code, codes, codes_dec,
}
use deixic_python.Base.Decimal.{str_ℕ, str}
use deixic_python.Value.{Value}
use deixic_python.Errors.{Content, header}
use deixic_python.Auth.{Credential}
use deixic_python.Tasks.Types.{Raised, foreign}
use deixic_python.Client.Network.{Reply}
use deixic_python.Federation.{exchange_error, status_error}
use deixic_python.Federation.Provider.{
  Seconds, Surroundings, Settings, Held, new_provider, next_assertion, claim_assertion,
  assertion_text, remember, reused,
}
use deixic_python.Federation.Provider.Exchange.{
  exchange_request, caught_as, attempts, exchange_once, read_reply, credential_from,
  read_credential, payload_of, exchange,
}
use deixic_python.Federation.Provider.Methods.{get_credential, refresh_credential}
use deixic_python.Federation.Provider.Once.{Log, exchange-Log}
use deixic_python.Federation.Provider.Cache.{Laws, IsProvider, SameCache}
use deixic_python.Federation.Provider.Cache.Handed.{
  ticked, get_credential-Handed, get_credential-SameCache,
}
use deixic_python.Federation.Provider.Cache.Replaced.{refresh_credential-Replaced}
use deixic_python.Federation.Provider.Cache.Available.{IsDown, get_credential_available}
use deixic_python.Tests.Client.{token, answered}

-- Whole seconds, from the epoch on.
abbrev whole : Seconds
whole = record {
  Time = ℕ;
  zero_time = 0;
  add = λ a b. a + b;
  sub = λ a b. a - b;
  max_time = max;
  half = λ a. a / 2;
  doubled = λ n a. a * 2 ^ n;
  before = ltb;
}

whole-Laws : Laws whole
whole-Laws = record {
  add-Until = λ t x y h. ground arith;
  sub-Until = λ x m h. ground arith;
  half-Until = λ x h. ground arith;
  max_time-Until = λ x y z h k. ground arith;
  zero-Until = λ x. ground arith;
  before-Until = λ t a b h k. ground arith;
}

abbrev busy : Reply
busy = record answered {
  response = record { status_code = 503; headers = []; content = Content.other; json = none };
}

-- Identity is unavailable; the world counts its requests, and the assertions are numbered by it.
abbrev around : Surroundings whole
around = record {
  World = ℕ;
  source = λ w. (ok (Value.text (str_ℕ w)), w);
  exchange = λ q w. (ok busy, suc w);
  close = λ reply w. w;
  clock = λ w. (100, w);
  sleep = λ d w. w;
  json_loads = λ b. none;
  dumps = λ a. [];
  sha256 = λ a. a;
  Moment = ℕ;
  fromisoformat = λ s. none;
  is_naive = λ m. false;
  in_utc = λ m. m;
  timestamp = λ m. m;
}

abbrev settings : Settings whole
settings = record {
  exchange_url = "https://identity.example/v1/workload-federation/exchange";
  refresh_margin = 60;
  timeout = 10;
  retry_delay = 1;
  max_attempts = 3;
}

abbrev start : Held whole ℕ
start = record { provider = new_provider whole; world = 0 }

-- The count is that of the digests.
counts : Log whole around settings (λ sent w. w ≡ length sent)
counts = record {
  by_send = λ a sent w new h. omega (arith, h, length-append sent (a ∷ []));
  by_source = λ sent w h. h;
  by_clock = λ sent w h. h;
  by_sleep = λ d sent w h. h;
  by_close = λ reply sent w h. h;
}

exchange-Log_example :
    (sent : List String) × ((exchange whole around settings start).1.world ≡ length sent)
    × (length sent ≤ 3)
exchange-Log_example =
    exchange-Log whole around settings (λ sent w. w ≡ length sent) counts start (omega arith) refl

-- All three attempts are made.
three-attempts : (exchange whole around settings start).1.world ≡ 3
unfolding exchange attempts exchange_once read_reply next_assertion claim_assertion assertion_text
    remember caught_as exchange_error status_error header str_ℕ str any strip lstrip rstrip is_space
    text_dec ℕ_discrete lowers_to lower lower_code codes codes_dec
three-attempts = refl

-- A credential whose refresh is due, and which has not expired.
abbrev due : Held whole ℕ
due = record start {
  provider = record (new_provider whole) {
    credential = some token;
    refresh_at = 50;
    expires_at = 200;
  };
}

due-IsProvider : IsProvider whole due.provider
due-IsProvider = record { refreshed_in_time = refl; used_bound = omega arith }

abbrev handed : Result Raised Credential × Held whole ℕ
handed = get_credential whole around settings due

handed-token : handed ≡ (ok token, handed.1)
unfolding get_credential exchange attempts exchange_once read_reply next_assertion claim_assertion
    assertion_text remember caught_as exchange_error status_error header str_ℕ str any strip lstrip
    rstrip is_space text_dec ℕ_discrete lowers_to lower lower_code codes codes_dec
handed-token = refl

get_credential-Handed_example :
    (handed.1.provider.credential ≡ some token)
    × IsProvider whole handed.1.provider
    × ((SameCache whole due.provider handed.1.provider × (ltb 100 200 ≡ true))
        ⊎ (exchange whole around settings (ticked around due) ≡ (ok token, handed.1)))
get_credential-Handed_example =
    get_credential-Handed whole around settings whole-Laws refl due handed.1 token due-IsProvider
      handed-token

-- The content of the response is no bytes.
abbrev odd : Surroundings whole
odd = record around {
  exchange =
      λ q w. (ok (record busy { response = record busy.response { status_code = 200 } }), suc w);
}

abbrev failed : Result Raised Credential × Held whole ℕ
failed = get_credential whole odd settings due

failed-TypeError : failed ≡ (err (foreign "TypeError"), failed.1)
unfolding get_credential exchange attempts exchange_once read_reply credential_from read_credential
    payload_of next_assertion claim_assertion assertion_text remember caught_as str_ℕ str any strip
    lstrip rstrip is_space text_dec
failed-TypeError = refl

get_credential-SameCache_example :
    SameCache whole due.provider failed.1.provider × IsProvider whole failed.1.provider
get_credential-SameCache_example =
    get_credential-SameCache whole odd settings whole-Laws refl due failed.1 (foreign "TypeError")
      due-IsProvider failed-TypeError

-- The source gives one assertion and then another one for good. Identity answers the first request with
-- status 503, and no later one reaches it.
abbrev down : Surroundings whole
down = record around {
  source = λ w. (ok (Value.text (elim w [ zero ↦ "one" | suc n ↦ "two" ])), w);
  exchange = λ q w. (elim w [ zero ↦ ok busy | suc n ↦ err (foreign "OSError") ], suc w);
}

down-given :
    (w : ℕ) → (a : String) × ((down.source w).0 ≡ ok (Value.text a)) × (is_empty (strip a) ≡ false)
unfolding strip lstrip rstrip is_space text_dec
down-given zero = ("one", refl, refl)
down-given (suc n) = ("two", refl, refl)

down-IsDown :
    (w : ℕ) (a : String) → IsDown (down.exchange (exchange_request whole down settings a) w).0
down-IsDown zero a = refl
down-IsDown (suc n) a = tt

get_credential_available_example : (get_credential whole down settings due).0 ≡ ok token
get_credential_available_example =
    get_credential_available whole down settings down-given down-IsDown due token refl refl
      (omega arith)

-- Both assertions are sent, and the third attempt is one with a used assertion.
two-attempts : (get_credential whole down settings due).1.world ≡ 2
unfolding get_credential exchange attempts exchange_once read_reply next_assertion claim_assertion
    assertion_text remember caught_as exchange_error status_error header str_ℕ str any strip lstrip
    rstrip is_space text_dec ℕ_discrete lowers_to lower lower_code codes codes_dec reused
two-attempts = refl

-- Another token than the cached one is rejected, whose refresh is not due.
abbrev renewed : Held whole ℕ
renewed = record start {
  provider = record (new_provider whole) {
    credential = some token;
    refresh_at = 150;
    expires_at = 200;
  };
}

abbrev old_token : Credential
old_token = record token { access_token = "old" }

renewed-token : refresh_credential whole around settings old_token renewed ≡ (ok token, renewed)
unfolding refresh_credential text_dec
renewed-token = refl

refresh_credential-Replaced_example :
    (renewed.provider.credential ≡ some token)
    × IsProvider whole renewed.provider
    × ((SameCache whole renewed.provider renewed.provider
          × (text_eq "token" "old" ≡ false)
          × (ltb 100 150 ≡ true))
        ⊎ ((exchange whole around settings renewed ≡ (ok token, renewed))
            ⊎ (exchange whole around settings (ticked around renewed) ≡ (ok token, renewed))))
refresh_credential-Replaced_example =
    refresh_credential-Replaced whole around settings whole-Laws refl renewed renewed old_token
      token (record { refreshed_in_time = refl; used_bound = omega arith }) renewed-token
