-- ===== src/Uds/Dispatcher/Shape.antt =====
-- flxc1000-uds/src/dispatcher.rs: the bytes that a tester can receive.
use flxc1000_rpi.Prelude.{
  ℕ, ◌+◌, ◌%◌, ◌^◌, ◌≡◌, ◌≢◌, refl, ◌⊎◌, inl, inr, bit_and, Bool-cases, ◌==◌, not, ==_iff, ltb,
  length, Option, some, none, List, [], ◌∷◌, arith, if◌then◌else◌,
}
use flxc1000_rpi.Bytes.{byte_at}
use flxc1000_rpi.Uds.Nrc
use flxc1000_rpi.Uds.Nrc.{
  Nrc, Result, ok, err, incorrect_message_length_or_invalid_format, sub_function_not_supported,
}
use flxc1000_rpi.Uds.Session.{Session, is_allowed}
use flxc1000_rpi.Uds.Dispatcher.{
  ServiceHandler, UdsDispatcher, Readings, handle_dsc, switch_session, handle_security_access,
  handle_tester_present, seed_response, key_response, handler_response, delegate, serve, process,
}
use flxc1000_rpi.Uds.Dispatcher.Gate.{ticked, process_gated}

-- The answers to a request with the service `sid`: a negative response for that service, a positive
-- one, or none, where the tester asked a session control or a tester present to keep quiet.
pub data IsAnswer (sid : ℕ) (request : List ℕ) : List ℕ → Type 0 where
  negative : (nrc : Nrc) → IsAnswer sid request (Nrc.response nrc sid)
  positive : (payload : List ℕ) → IsAnswer sid request (((sid + 0x40) % 2 ^ 8) ∷ payload)
  quiet :
      (sid ≡ 0x10) ⊎ (sid ≡ 0x3E) → bit_and (byte_at request 1) 0x80 ≢ 0 → IsAnswer sid request []

suppressed :
    (sid : ℕ) (request payload : List ℕ)
    → (sid ≡ 0x10) ⊎ (sid ≡ 0x3E)
    → IsAnswer sid request (
        if not (bit_and (byte_at request 1) 0x80 == 0)
        then []
        else ((sid + 0x40) % 2 ^ 8) ∷ payload)
suppressed sid request payload which = elim (Bool-cases (bit_and (byte_at request 1) 0x80 == 0)) [
  | inl loud ↦ rw loud (positive payload)
  | inr silent ↦ rw silent (quiet which (ground arith))
]

switch_session-IsAnswer :
    (request : List ℕ) (o : Option Session) (r : Readings) (d : UdsDispatcher)
    → IsAnswer 0x10 request
        (switch_session
          (not (bit_and (byte_at request 1) 0x80 == 0))
          (bit_and (byte_at request 1) 0x7F)
          o
          r
          d).0
unfolding switch_session
switch_session-IsAnswer request none r d = negative sub_function_not_supported
switch_session-IsAnswer request (some session) r d =
    elim (Bool-cases (is_allowed d.session session)) [
      | inr e ↦ rw e (negative sub_function_not_supported)
      | inl e ↦ rw e (suppressed 0x10 request _ (inl refl))
    ]

handle_dsc-IsAnswer :
    (request : List ℕ) (r : Readings) (d : UdsDispatcher)
    → IsAnswer 0x10 request (handle_dsc request r d).0
unfolding handle_dsc
handle_dsc-IsAnswer request r d = elim (Bool-cases (ltb (length request) 2)) [
  | inl e ↦ rw e (negative incorrect_message_length_or_invalid_format)
  | inr e ↦ rw e (switch_session-IsAnswer request _ r d)
]

seed_response-IsAnswer :
    (request : List ℕ) (subfunc : ℕ) (result : Result (List ℕ))
    → IsAnswer 0x27 request (seed_response subfunc result)
seed_response-IsAnswer request subfunc (ok seed) = positive (subfunc ∷ seed)
seed_response-IsAnswer request subfunc (err nrc) = negative nrc

key_response-IsAnswer :
    (request : List ℕ) (subfunc : ℕ) (result : Result (Unit {0}))
    → IsAnswer 0x27 request (key_response subfunc result)
key_response-IsAnswer request subfunc (ok a) = positive (subfunc ∷ [])
key_response-IsAnswer request subfunc (err nrc) = negative nrc

handle_security_access-IsAnswer :
    (request : List ℕ) (r : Readings) (d : UdsDispatcher)
    → IsAnswer 0x27 request (handle_security_access request r d).0
unfolding handle_security_access
handle_security_access-IsAnswer request r d = elim (Bool-cases (ltb (length request) 2)) [
  | inl e ↦ rw e (negative incorrect_message_length_or_invalid_format)
  | inr e ↦ elim (Bool-cases (byte_at request 1 % 2 == 1)) [
    | inl odd ↦ rw (e, odd) (seed_response-IsAnswer request _ _)
    | inr even ↦ rw (e, even) (key_response-IsAnswer request _ _)
  ]
]

handle_tester_present-IsAnswer :
    (request : List ℕ) (r : Readings) (d : UdsDispatcher)
    → IsAnswer 0x3E request (handle_tester_present request r d).0
unfolding handle_tester_present
handle_tester_present-IsAnswer request r d = elim (Bool-cases (ltb (length request) 2)) [
  | inl e ↦ rw e (negative incorrect_message_length_or_invalid_format)
  | inr e ↦ elim (Bool-cases (bit_and (byte_at request 1) 0x7F == 0)) [
    | inl zero_sub ↦ rw (e, zero_sub) (suppressed 0x3E request _ (inr refl))
    | inr other ↦ rw (e, other) (negative sub_function_not_supported)
  ]
]

module _ {H : Type 0} (handler : ServiceHandler H) where
  delegate-IsAnswer :
      (sid : ℕ) (request : List ℕ) (h : H) (d : UdsDispatcher)
      → IsAnswer sid request (delegate handler sid request h d).0
  unfolding delegate
  delegate-IsAnswer sid request h d =
      by_result (handler.handle h sid request d.session d.security).0
    where
      by_result : (x : Result (List ℕ)) → IsAnswer sid request (handler_response sid x)
      by_result (ok payload) = positive payload
      by_result (err nrc) = negative nrc

  serve-IsAnswer :
      (sid : ℕ) (request : List ℕ) (r : Readings) (h : H) (d : UdsDispatcher)
      → IsAnswer sid request (serve handler sid request r h d).0
  unfolding serve
  serve-IsAnswer sid request r h d = elim (Bool-cases (sid == 0x10)) [
    | inl dsc ↦ rw ((==_iff _ _).0 dsc) (handle_dsc-IsAnswer request r d)
    | inr e ↦ elim (Bool-cases (sid == 0x27)) [
      | inl access ↦ rw ((==_iff _ _).0 access) (handle_security_access-IsAnswer request r d)
      | inr e' ↦ elim (Bool-cases (sid == 0x3E)) [
        | inl present ↦ rw ((==_iff _ _).0 present) (handle_tester_present-IsAnswer request r d)
        | inr e'' ↦ rw (e, e', e'') (delegate-IsAnswer sid request h d)
      ]
    ]
  ]

  -- Whatever the request and the handler, what goes back to the tester is a negative response that
  -- names the service, a positive one with the service's response SID, or nothing, and nothing only
  -- for a session control or a tester present whose suppress bit is set.
  pub process-IsAnswer :
      (sid : ℕ) (more : List ℕ) (r : Readings) (h : H) (d : UdsDispatcher)
      → IsAnswer sid (sid ∷ more) (process handler (sid ∷ more) r h d).0
  process-IsAnswer sid more r h d = elim (process_gated handler sid more r h d) [
    | inl (admitted, served) ↦ rw served (serve-IsAnswer sid (sid ∷ more) r h (ticked r d))
    | inr (nrc, reason, refused) ↦ rw refused (negative nrc)
  ]
