-- ===== src/Doip/Connection/Total.antt =====
-- flxc1000-doip/src/connection.rs: every read is made of frames, and its processing ends.
use flxc1000_rpi.Prelude.{
  ℕ, zero, suc, ◌+◌, ◌-◌, ◌≤◌, ◌<◌, ◌≡◌, ◌≢◌, refl, sym, ap, ◌∙◌, inl, inr, Option, none, some,
  List, [], ◌∷◌, ◌++◌, length, take, drop, All, All-drop, length-drop, length-take, append_assoc,
  arith, leb, ltb, Bool-cases, Option-cases, ltb→lt, not_ltb→le,
}
use flxc1000_rpi.Bytes.{IsU8}
use flxc1000_rpi.Doip.Header
use flxc1000_rpi.Doip.Header.{PayloadType, DoipHeader, header_size}
use flxc1000_rpi.Doip.Header.Codec.{encode-parse, parse-none_iff}
use flxc1000_rpi.Doip.Connection.Action.{
  Env, Conn, Action, Result, ok, err, out_of_fuel, bind_case, ◌>>◌,
}
use flxc1000_rpi.Doip.Connection.Process.{
  dispatch, process_from, process_tcp_data, handle_routing_activation, handle_diagnostic_message,
}
use flxc1000_rpi.Doip.Connection.Framing.{
  Frame, header_of, stream_bytes, AreFrames, IsIncomplete, handle_frames,
  process_tcp_data-handle_frames,
}

-- Every list of bytes is a row of frames and an incomplete rest.
record Decomposition (bytes : List ℕ) : Type 0 where
  frames : List Frame
  rest : List ℕ
  fit : AreFrames frames
  incomplete : IsIncomplete rest
  whole : bytes ≡ stream_bytes frames rest

take-append-drop : (n : ℕ) (xs : List ℕ) → take n xs ++ drop n xs ≡ xs
take-append-drop zero xs = refl
take-append-drop (suc n) [] = refl
take-append-drop (suc n) (x ∷ xs) = ap (λ l. x ∷ l) (take-append-drop n xs)

abbrev frame_at : DoipHeader → List ℕ → Frame
frame_at h bytes = record {
  protocol_version = h.protocol_version;
  inverse_version = h.inverse_version;
  payload_type = h.payload_type;
  payload = take h.payload_length (drop header_size bytes);
}

module _ (bytes : List ℕ) (h : DoipHeader) (are_bytes : All IsU8 bytes)
    (parsed : Header.parse bytes ≡ some h)
    (enough : header_size + h.payload_length ≤ length bytes) where
  header_of-frame_at : header_of (frame_at h bytes) ≡ h
  header_of-frame_at =
      ground (
        arith,
        length-take h.payload_length (drop header_size bytes),
        length-drop header_size bytes,
      )

  first_frame : Decomposition (drop h.payload_length (drop header_size bytes)) → Decomposition bytes
  first_frame d = record {
    frames = frame_at h bytes ∷ d.frames;
    rest = d.rest;
    fit = (rw header_of-frame_at (encode-parse bytes h are_bytes parsed).0, d.fit);
    incomplete = d.incomplete;
    whole = sym (
        rw (header_of-frame_at, ← d.whole)
          (append_assoc (Header.encode h) _ _
            ∙ ap (λ l. Header.encode h ++ l)
                (take-append-drop h.payload_length (drop header_size bytes))
            ∙ (encode-parse bytes h are_bytes parsed).1));
  }

decompose : (fuel : ℕ) (bytes : List ℕ) → length bytes < fuel → All IsU8 bytes → Decomposition bytes
decompose zero bytes h are_bytes = absurd (omega arith)
decompose (suc fuel) bytes h are_bytes = elim (Option-cases (Header.parse bytes)) [
  | inl e ↦ record {
    frames = [];
    rest = bytes;
    fit = tt;
    incomplete = inl ((parse-none_iff bytes).0 e);
    whole = refl;
  }
  | inr (header, e) ↦ elim (Bool-cases (ltb (length bytes) (header_size + header.payload_length))) [
    | inl short ↦ record {
      frames = [];
      rest = bytes;
      fit = tt;
      incomplete = inr (header, e, ltb→lt _ _ short);
      whole = refl;
    }
    | inr enough ↦
        let fits : header_size + header.payload_length ≤ length bytes = not_ltb→le _ _ enough in
        first_frame bytes header are_bytes e fits (
          decompose fuel (drop header.payload_length (drop header_size bytes))
            (omega (
              arith,
              length-drop header.payload_length (drop header_size bytes),
              length-drop header_size bytes,
            ))
            (All-drop IsU8 header.payload_length _ (All-drop IsU8 header_size bytes are_bytes)))
  ]
]

>>-ends :
    (m k : Action (Unit {0})) (c : Conn)
    → (m c).0 ≢ out_of_fuel
    → ((c' : Conn) → (k c').0 ≢ out_of_fuel)
    → ((m >> k) c).0 ≢ out_of_fuel
>>-ends m k c first then_ends = bind_ends (m c).0 (m c).1 first
  where
    bind_ends :
        (r : Result (Unit {0})) (c' : Conn)
        → r ≢ out_of_fuel
        → (bind_case r c' (λ _. k)).0 ≢ out_of_fuel
    bind_ends (ok a) c' h = then_ends c'
    bind_ends (err e) c' h = cc
    bind_ends out_of_fuel c' h = h

abbrev payload_at : List ℕ → ℕ → DoipHeader → List ℕ
payload_at bytes offset h =
    take (offset + (header_size + h.payload_length) - (offset + header_size))
      (drop (offset + header_size) bytes)

module _ (env : Env) (ecu_address : ℕ) where
  -- Whatever a read delivers, it is a row of frames and an incomplete rest, and it is processed as
  -- these frames, handled once each and in their order up to the first error.
  pub process_tcp_data-covers :
      (bytes : List ℕ)
      → All IsU8 bytes
      → (fs : List Frame) × (rest : List ℕ) × AreFrames fs
        × IsIncomplete rest
        × (bytes ≡ stream_bytes fs rest)
        × (process_tcp_data env ecu_address bytes ≡ handle_frames env ecu_address fs)
  process_tcp_data-covers bytes are_bytes =
      let d = decompose (suc (length bytes)) bytes (omega arith) are_bytes in
      (
        d.frames,
        d.rest,
        d.fit,
        d.incomplete,
        d.whole,
        ap (process_tcp_data env ecu_address) d.whole
            ∙ process_tcp_data-handle_frames env ecu_address d.frames d.rest d.fit d.incomplete,
      )

  dispatch-ends :
      (t : Option PayloadType) (payload : List ℕ) (c : Conn)
      → (dispatch env ecu_address t payload c).0 ≢ out_of_fuel
  unfolding dispatch handle_routing_activation handle_diagnostic_message
  dispatch-ends none payload c = ground arith
  dispatch-ends (some t) payload c = ground arith

  process_from-ends :
      (fuel : ℕ) (bytes : List ℕ) (offset : ℕ) (c : Conn)
      → 0 < fuel
      → length bytes < offset + fuel
      → (process_from env ecu_address fuel bytes offset c).0 ≢ out_of_fuel
  unfolding process_from
  process_from-ends zero bytes offset c pos enough = elim pos [ ]
  process_from-ends (suc fuel) bytes offset c pos enough =
      elim (Bool-cases (leb (offset + header_size) (length bytes))) [
        | inr last ↦ rw last (cc)
        | inl more ↦ elim (Option-cases (Header.parse (drop offset bytes))) [
          | inl e ↦ rw (more, e) (cc)
          | inr (h, e) ↦
              elim (Bool-cases (ltb (length bytes) (offset + (header_size + h.payload_length)))) [
                | inl cut ↦ rw (more, e, cut) (cc)
                | inr whole ↦
                    let fits : offset + (header_size + h.payload_length) ≤ length bytes =
                      not_ltb→le _ _ whole in
                    rw (more, e, whole)
                      (>>-ends
                        (dispatch env ecu_address (Header.from_u16 h.payload_type)
                          (payload_at bytes offset h))
                        (process_from env ecu_address fuel bytes
                          (offset + (header_size + h.payload_length)))
                        c
                        (dispatch-ends (Header.from_u16 h.payload_type) (payload_at bytes offset h)
                          c)
                        (λ c'.
                          process_from-ends fuel bytes (offset + (header_size + h.payload_length))
                            c' (omega arith) (omega arith)))
              ]
        ]
      ]

  -- The loop over the frames of a read always ends: `out_of_fuel` is never the result.
  pub process_tcp_data-ends :
      (bytes : List ℕ) (c : Conn) → (process_tcp_data env ecu_address bytes c).0 ≢ out_of_fuel
  unfolding process_tcp_data
  process_tcp_data-ends bytes c =
      process_from-ends (suc (length bytes)) bytes 0 c (omega arith) (omega arith)
