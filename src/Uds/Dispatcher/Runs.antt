-- ===== src/Uds/Dispatcher/Runs.antt =====
-- flxc1000-uds/src/dispatcher.rs and security.rs: every run of a dispatcher.
use flxc1000_rpi.Prelude.{◌↔◌, ℕ, ◌≡◌, refl, inl, inr, true, List, [], ◌∷◌, All}
use flxc1000_rpi.Bytes.{IsU8, IsU32}
use flxc1000_rpi.Bytes.Bitwise.{not-has_bit-zero}
use flxc1000_rpi.Uds.Nrc
use flxc1000_rpi.Uds.Nrc.{
  Nrc, Result, ok, err, sub_function_not_supported, service_not_supported, conditions_not_correct,
  security_access_denied,
}
use flxc1000_rpi.Uds.Session.{Session}
use flxc1000_rpi.Uds.Security
use flxc1000_rpi.Uds.Security.{
  SecurityState, is_unlocked, request_seed, submit_key, draw_seed, shift_of,
}
use flxc1000_rpi.Uds.Security.Invariant.{new-IsSound}
use flxc1000_rpi.Uds.Dispatcher.{
  ServiceHandler, UdsDispatcher, Readings, new, tick_session, process,
}
use flxc1000_rpi.Uds.Dispatcher.Gate.{
  ticked, process_gated, Refusal, unsupported, wrong_session, locked,
}
use flxc1000_rpi.Uds.Dispatcher.History.{Exchange, is_early, Opened}
use flxc1000_rpi.Uds.Dispatcher.Explained.{IsExplained, entry, keeps-IsExplained}
use flxc1000_rpi.Uds.Dispatcher.Explained.Serve.{
  KeepsSecurity, refused-IsExplained, serve-IsExplained,
}

Refusal-is_early :
    {H : Type 0} (handler : ServiceHandler H) {sid : ℕ} {more : List ℕ} {h : H} {d : UdsDispatcher}
    {nrc : Nrc}
    → Refusal handler sid more h d nrc
    → is_early (Nrc.code nrc) ≡ true
unfolding Nrc.code
Refusal-is_early handler (unsupported _) = refl
Refusal-is_early handler (wrong_session _ _) = refl
Refusal-is_early handler (locked _ _ _) = refl

new-IsExplained : IsExplained Security.new []
unfolding Security.new is_unlocked
new-IsExplained = record {
  sound = unfold Security.new in new-IsSound;
  seed = λ level seed e. absurd (cc e);
  unlocked = λ level e. absurd (cc (not-has_bit-zero (shift_of level), e));
  opened = λ level o. absurd o;
}

-- A run: the handler, the dispatcher, and the history.
pub record Run (H : Type 0) : Type 0 where
  pub handler_state : H
  pub dispatcher : UdsDispatcher
  pub log : List Exchange

module _ {H : Type 0} (handler : ServiceHandler H) where
  abbrev pub ask : List ℕ → Readings → Run H → Run H
  ask request r y =
      let (response, h, d) = process handler request r y.handler_state y.dispatcher in
      record {
        handler_state = h;
        dispatcher = d;
        log = entry (ticked r y.dispatcher) request response ∷ y.log;
      }

  -- A new dispatcher, requests at any times, and ticks of the session timer between them.
  pub data Reach : Run H → Type 0 where
    begin :
        (h : H) (allowed : List Session) (now : ℕ)
        → Reach (record { handler_state = h; dispatcher = new allowed now; log = [] })
    asks :
        {y : Run H} (request : List ℕ) (r : Readings)
        → All IsU8 request
        → IsU32 r.nanos
        → IsU32 r.sub_tick
        → Reach y
        → Reach (ask request r y)
    ticks :
        {y : Run H} (now : ℕ)
        → Reach y
        → Reach (record y { dispatcher = tick_session now y.dispatcher })

  module _ (keeps : KeepsSecurity handler) where
    process-IsExplained :
        (request : List ℕ) (r : Readings) (h : H) (d : UdsDispatcher) (log : List Exchange)
        → All IsU8 request
        → IsU32 r.nanos
        → IsU32 r.sub_tick
        → IsExplained d.security log
        → let (response, h', d') = process handler request r h d in
          IsExplained d'.security (entry (ticked r d) request response ∷ log)
    process-IsExplained [] r h d log bytes hn ht explained =
        unfold process in keeps-IsExplained d.security _ log refl refl explained
    process-IsExplained (sid ∷ more) r h d log bytes hn ht explained =
        elim (process_gated handler sid more r h d) [
          | inl (admitted, served) ↦ rw served (
              serve-IsExplained handler keeps sid more r h (ticked r d) log bytes.1 hn ht explained)
          | inr (nrc, reason, refused) ↦ rw refused (
              refused-IsExplained nrc sid more (ticked r d) log (Refusal-is_early handler reason)
                explained)
        ]

    Reach-IsExplained : {y : Run H} → Reach y → IsExplained y.dispatcher.security y.log
    unfolding new tick_session
    Reach-IsExplained (begin h allowed now) = new-IsExplained
    Reach-IsExplained (asks {y = y} request r bytes hn ht reached) =
        process-IsExplained request r y.handler_state y.dispatcher y.log bytes hn ht
          (Reach-IsExplained reached)
    Reach-IsExplained (ticks now reached) = Reach-IsExplained reached

    -- In every run of a dispatcher, with any requests and ticks at any times, a level is unlocked
    -- exactly if the requests and answers show that a key was accepted for it, or for a level that
    -- shares its bit, with no change to the default session from another since. The key had four
    -- bytes and was that of a seed, not zero, that was handed out for its level before, and nothing
    -- came between the two that used up the seed; so no seed unlocks twice. The service handler
    -- leaves the security state alone, the requests are bytes, and the clocks' nanoseconds fit 32
    -- bits.
    pub Reach-Opened_iff :
        {y : Run H} (level : ℕ)
        → Reach y
        → (is_unlocked y.dispatcher.security level ≡ true) ↔ Opened level y.log
    Reach-Opened_iff level reached =
        let explained = Reach-IsExplained reached in
        (explained.unlocked level, explained.opened level)
