-- ===== src/Ace.antt =====
-- What flxc1000-app/src/main.rs and flxc1000-boot/src/main.rs use of the crates ace-server and
-- ace-sim, which are not in the repository: the UDS server is a parameter.
pub mod Config
pub mod Extend
pub mod Loop
use flxc1000_rpi.Prelude.{Option, none, some, ℕ, ◌==◌, if◌then◌else◌, List, [], ◌∷◌}
use flxc1000_rpi.Doip.Connection.Action.{UdsRequest}

-- The codes of ace-server that the programs return.
pub data BuiltinNrc : Type 0 where
  request_out_of_range incorrect_message_length_or_invalid_format : BuiltinNrc
  conditions_not_correct sub_function_not_supported request_sequence_error : BuiltinNrc

-- `Result<A, BuiltinNrc>`; where the source fills `buf` and returns a length, `A` is the list of
-- the bytes up to that length.
pub data Result (A : Type 0) : Type 0 where
  ok : A → Result A
  err : BuiltinNrc → Result A

-- What the main loops use of a `UdsServer` with a state in `S`. The server owns the handler, whose
-- state is in `H`, so its methods may change that too; the answers it leaves are paired with their
-- addresses.
pub record UdsServer (S H : Type 0) : Type 0 where
  pub session_type : S → ℕ
  pub handle : ℕ → List ℕ → ℕ → S → H → S × H
  pub tick : ℕ → S → H → S × H
  pub drain_outbox : S → List (ℕ × List ℕ) × S

-- That the server changes the handler's state in certain ways only: what `handle` may do for a
-- request, and what `tick` may do.
pub record ReachesBy {S H : Type 0} (ace : UdsServer S H) (Handled : List ℕ → H → H → Type 0)
    (Ticked : H → H → Type 0) : Type 0 where
  pub handles :
      (source : ℕ) (request : List ℕ) (now : ℕ) (s : S) (h : H)
      → Handled request h (ace.handle source request now s h).1
  pub ticks : (now : ℕ) (s : S) (h : H) → Ticked h (ace.tick now s h).1

-- `find`, `map` and `unwrap_or_default` on the answers.
unfoldable pub answer_for : ℕ → List (ℕ × List ℕ) → List ℕ
answer_for source [] = []
answer_for source ((destination, bytes) ∷ outbox) =
    let rest = answer_for source outbox in if destination == source then bytes else rest

-- The part of a turn that both main loops share: the request is handled, the timers tick, the
-- session type is stored where the handler reads it, and the answer to the tester is picked.
unfoldable pub ask_server :
    {S H : Type 0} → UdsServer S H → (ℕ → H → H) → ℕ → UdsRequest → S → H → List ℕ × S × H
unfolding answer_for
ask_server ace store now req server shared =
    let (handled, shared1) = ace.handle req.source_address req.bytes now server shared in
    let (ticked, shared2) = ace.tick now handled shared1 in
    let (outbox, drained) = ace.drain_outbox ticked in
    (answer_for req.source_address outbox, drained, store (ace.session_type ticked) shared2)

-- What the programs execute in place of themselves: /init, or the running binary again.
pub data Image : Type 0 where
  init_image own_image : Image

-- What a turn of a main loop does: the response that it sends, and what it then executes, if
-- anything. Whether the response could be sent makes no difference to the rest.
pub record Turn (S H : Type 0) : Type 0 where
  pub response : List ℕ
  pub exec : Option Image
  pub server : S
  pub shared : H

-- The program behind a turn: `none` once it has executed another image.
abbrev pub after_turn : {S H : Type 0} → Turn S H → Option Image → Option (S × H)
after_turn t none = some (t.server, t.shared)
after_turn t (some image) = none
