-- ===== src/Federation/Provider/Once.antt =====
-- How often an exchange asks Identity, and with which assertions.
use deixic_python.Base.{
  ℕ, zero, suc, ◌+◌, ◌-◌, ◌≤◌, String, Bool, true, false, ◌||◌, ◌≡◌, sym, ap, ◌∙◌, subst, Option,
  none, some, List, [], ◌∷◌, ◌++◌, any, length, drop, length-append, drop-append, append_assoc,
  append-nil, arith,
}
use deixic_python.Base.Post.{Post, raised, Post-state}
use deixic_python.Errors.{DeixicError}
use deixic_python.Client.Network.{Reply}
use deixic_python.Federation.{remembered_assertions}
use deixic_python.Federation.Provider.{Seconds, Surroundings, Settings, Held, is_used, remember}
use deixic_python.Federation.Provider.Exchange.{exchange_request, pause, attempts, exchange}
use deixic_python.Federation.Provider.Steps.{asserts, exchanges, retries, attempts_with}

-- A record of the digests that were sent, kept by the world: only the request of an exchange, with an
-- assertion whose digest is not among them, adds to it.
pub record Log (T : Seconds) (E : Surroundings T) (settings : Settings T)
    (K : List String → E.World → Type 0) : Type 0 where
  pub by_send :
      (a : String) (sent : List String) (w : E.World)
      → is_used (E.sha256 a) sent ≡ false
      → K sent w
      → K (sent ++ E.sha256 a ∷ []) (E.exchange (exchange_request T E settings a) w).1
  pub by_source : (sent : List String) (w : E.World) → K sent w → K sent (E.source w).1
  pub by_clock : (sent : List String) (w : E.World) → K sent w → K sent (E.clock w).1
  pub by_sleep : (d : T.Time) (sent : List String) (w : E.World) → K sent w → K sent (E.sleep d w)
  pub by_close :
      (reply : Reply) (sent : List String) (w : E.World) → K sent w → K sent (E.close reply w)

-- The digests that were sent are the last ones that are remembered.
abbrev Recent : List String → List String → Type 0
Recent sent used = (older : List String) × (used ≡ older ++ sent)

is_used-append :
    (d : String) (xs ys : List String) → is_used d (xs ++ ys) ≡ false → is_used d ys ≡ false
unfolding any
is_used-append d [] ys h = h
is_used-append d (x ∷ xs) ys h = is_used-append d xs ys (or_right _ _ h)
  where
    or_right : (a b : Bool) → (a || b) ≡ false → b ≡ false
    or_right false b h = h
    or_right true b h = cc

remember-Recent :
    (d : String) (sent used : List String)
    → suc (length sent) ≤ remembered_assertions
    → Recent sent used
    → Recent (sent ++ d ∷ []) (remember d used)
unfolding remember
remember-Recent d sent used h (older, e) =
    let extended = older ++ (sent ++ d ∷ []) in
    let whole : (used ++ d ∷ []) ≡ extended =
      ap (λ u. u ++ d ∷ []) e ∙ append_assoc older sent (d ∷ []) in
    let size : length extended ≡ length older + suc (length sent) =
      omega (arith, length-append older (sent ++ d ∷ []), length-append sent (d ∷ [])) in
    let n = length extended - remembered_assertions in
    (
      drop n older,
      ap (λ u. drop (length u - remembered_assertions) u) whole
          ∙ drop-append n older (sent ++ d ∷ []) (omega (arith, size)),
    )

module _ (T : Seconds) (E : Surroundings T) (settings : Settings T)
    (K : List String → E.World → Type 0) (log : Log T E settings K) where
  -- At most this many digests were sent.
  abbrev Within : ℕ → Held T E.World → Type 0
  Within n t = (sent : List String) × K sent t.world × (length sent ≤ n)

  abbrev Sent : List String → Held T E.World → Type 0
  Sent sent t = K sent t.world × Recent sent t.provider.used_assertions

  paused :
      (attempt : ℕ) (last : Option DeixicError) (sent : List String) (w : E.World)
      → K sent w
      → K sent (pause T E settings attempt last w)
  paused attempt none sent w h = h
  paused attempt (some e) sent w h = log.by_sleep _ sent w h

  length-sent : (d : String) (sent : List String) → length (sent ++ d ∷ []) ≡ suc (length sent)
  length-sent d sent = omega (arith, length-append sent (d ∷ []))

  attempts-Post :
      (remaining attempt : ℕ) (last : Option DeixicError) (sent : List String) (bound : ℕ)
      (s : Held T E.World)
      → length sent + remaining ≤ bound
      → bound ≤ 10
      → Sent sent s
      → Post (λ _. Within bound) (Within bound) (attempts T E settings remaining attempt last s)
  unfolding attempts
  attempts-Post zero attempt last sent bound s h small (k, recent) =
      raised _ s (sent, k, omega arith)
  attempts-Post (suc remaining) attempt last sent bound s h small (k, recent) =
      let w = pause T E settings attempt last s.world in
      let asked = log.by_source sent w (paused attempt last sent s.world k) in
      attempts_with T E settings
        {A = λ a t.
          K sent t.world
          × (is_used (E.sha256 a) sent ≡ false)
          × Recent (sent ++ E.sha256 a ∷ []) t.provider.used_assertions}
        last (attempts T E settings remaining (suc attempt)) _
        (asserts T E settings (record s { world = w })
          (λ a new. (
            asked,
            is_used-append _ recent.0 sent
                (subst (λ u. is_used (E.sha256 a) u ≡ false) recent.1 new),
            remember-Recent (E.sha256 a) sent s.provider.used_assertions (omega arith) recent,
          ))
          (sent, asked, omega arith))
        λ a t (k1, new, recent1).
          let more = sent ++ E.sha256 a ∷ [] in
          let size = length-sent (E.sha256 a) sent in
          let k2 = log.by_send a sent t.world new k1 in
          retries T E settings {M = Sent more} (attempts T E settings remaining (suc attempt)) _
            (exchanges T E settings a t (
              (k2, recent1),
              (λ reply. (log.by_close reply more _ k2, recent1)),
              (λ reply c expiry.
                  (more, log.by_close reply more _ (log.by_clock more _ k2), omega (arith, size))),
            ))
            (λ u (k3, _). (more, k3, omega (arith, size)))
            (λ next u m.
              attempts-Post remaining (suc attempt) next more bound u (omega (arith, size)) small m)

  -- Whatever the assertion source, the transport and the clock do, an exchange makes at most
  -- `max_attempts` requests, each of them the request of an exchange, and no two of them with
  -- assertions of the same digest. Stated of any log that only such a request extends, by its digest:
  -- from the empty log it never holds more, whether the exchange returns or raises. The settings'
  -- `max_attempts` is at most 10, which the constructor makes sure of.
  pub exchange-Log :
      (s : Held T E.World)
      → settings.max_attempts ≤ 10
      → K [] s.world
      → (sent : List String) × K sent (exchange T E settings s).1.world
        × (length sent ≤ settings.max_attempts)
  unfolding exchange
  exchange-Log s small k =
      Post-state (Within settings.max_attempts)
        (attempts T E settings settings.max_attempts 0 none s)
        (attempts-Post settings.max_attempts 0 none [] settings.max_attempts s (omega arith) small
          (k, (s.provider.used_assertions, sym (append-nil _))))
        (λ _ t x. x) (λ t x. x)
