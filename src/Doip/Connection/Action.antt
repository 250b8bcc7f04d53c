-- ===== src/Doip/Connection/Action.antt =====
-- flxc1000-doip/src/connection.rs: the state of a connection, and what its handlers can do to the
-- outside: write to the stream, forward a request to the UDS side, and wait for the answer.
use flxc1000_rpi.Prelude.{ℕ, Bool, Option, none, some, List, ◌∷◌, if◌then◌else◌}

-- The field `response_tx` is the channel on which the answer comes; the answer is `Env.reply`.
pub record UdsRequest : Type 0 where
  pub source_address : ℕ  -- u16
  pub target_address : ℕ  -- u16
  pub bytes : List ℕ  -- the field `data`

pub data ConnectionState : Type 0 where
  awaiting_activation : ConnectionState
  active : ℕ → ConnectionState  -- tester_address

-- What the connection did to the outside.
pub data Effect : Type 0 where
  wrote : List ℕ → Effect
  forwarded : UdsRequest → Effect

-- The peer and the UDS side, which are not in this crate. What they do may depend on all that the
-- connection did before, so they are functions of the effects so far, newest first: whether a
-- `write_all` succeeds, whether the channel takes a request, and what comes back on its response
-- channel (`none` if that is dropped unused).
pub record Env : Type 0 where
  pub write_ok : List Effect → List ℕ → Bool
  pub send_ok : List Effect → UdsRequest → Bool
  pub reply : List Effect → UdsRequest → Option (List ℕ)

pub record Conn : Type 0 where
  pub state : ConnectionState
  pub log : List Effect  -- newest first

-- The boxed errors that `?` passes on.
pub data ConnError : Type 0 where
  write_failed : ConnError
  invalid_routing_activation_request : ConnError
  invalid_diagnostic_message : ConnError
  uds_handler_closed : ConnError

-- `out_of_fuel` is no value of the code: the loop over the frames ran out of rounds.
pub data Result (A : Type 0) : Type 0 where
  ok : A → Result A
  err : ConnError → Result A
  out_of_fuel : Result A

-- A handler keeps what it did before an error.
abbrev pub Action : Type 0 → Type 0
Action A = Conn → Result A × Conn

abbrev pub pure : {A : Type 0} → A → Action A
pure a c = (ok a, c)

abbrev pub diverge : {A : Type 0} → Action A
diverge c = (out_of_fuel, c)

-- `ok_or(e)?`
abbrev pub or_raise : {A : Type 0} → Option A → ConnError → Action A
or_raise none e c = (err e, c)
or_raise (some a) e c = (ok a, c)

abbrev pub bind_case : {A B : Type 0} → Result A → Conn → (A → Action B) → Result B × Conn
bind_case (ok a) c f = f a c
bind_case (err e) c f = (err e, c)
bind_case out_of_fuel c f = (out_of_fuel, c)

infixl 5 ◌>>=◌ ◌>>◌
abbrev pub ◌>>=◌ : {A B : Type 0} → Action A → (A → Action B) → Action B
◌>>=◌ m f c = bind_case (m c).0 (m c).1 f

abbrev pub ◌>>◌ : {A B : Type 0} → Action A → Action B → Action B
m >> k = m >>= λ _. k

abbrev pub get_state : Action ConnectionState
get_state c = (ok c.state, c)

abbrev pub set_state : ConnectionState → Action (Unit {0})
set_state s c = (ok tt, record c { state = s })

-- `stream.write_all(bytes).await?`. A write that fails is not in the log.
abbrev pub write_all : Env → List ℕ → Action (Unit {0})
write_all env bytes c =
    if env.write_ok c.log bytes
    then (ok tt, record c { log = wrote bytes ∷ c.log })
    else (err write_failed, c)

-- `uds_tx.send(req).await.map_err(|_| "UDS handler closed")?`
abbrev pub send : Env → UdsRequest → Action (Unit {0})
send env req c =
    if env.send_ok c.log req
    then (ok tt, record c { log = forwarded req ∷ c.log })
    else (err uds_handler_closed, c)

-- `resp_rx.recv().await`
abbrev pub recv : Env → UdsRequest → Action (Option (List ℕ))
recv env req c = (ok (env.reply c.log req), c)
