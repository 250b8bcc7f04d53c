-- ===== src/Doip/Server/Laws.antt =====
-- flxc1000-doip/src/server.rs: which datagrams are answered.
use flxc1000_rpi.Prelude.{
  ℕ, ◌≤◌, ◌≡◌, inl, inr, ◌↔◌, Bool-cases, Option-cases, ltb→lt, ltb, if◌then◌else◌, Option, none,
  some, List, length, take, arith,
}
use flxc1000_rpi.Doip.Header
use flxc1000_rpi.Doip.Header.{DoipHeader, PayloadType, vehicle_announcement_message}
use flxc1000_rpi.Doip.Header.Codec.{parse-none_iff}
use flxc1000_rpi.Doip.Message.Vehicle
use flxc1000_rpi.Doip.Server.{DoipConfig, announcement, identify, buffer_size, on_datagram}

identify_iff :
    (c : DoipConfig) (v : ℕ) (answer : List ℕ)
    → (identify c (Header.from_u16 v) ≡ some answer)
      ↔ ((1 ≤ v) × (v ≤ 3) × (answer ≡ Vehicle.encode (announcement c)))
unfolding identify Header.from_u16
identify_iff c v answer = ground arith

-- What `on_datagram` does with what is in the buffer.
abbrev answer_received : DoipConfig → List ℕ → Option (List ℕ)
answer_received c received =
    if ltb (length received) 8 then none else elim (Header.parse received) [
      | none ↦ none
      | some header ↦ identify c (Header.from_u16 header.payload_type)
    ]

abbrev Identifies : DoipConfig → List ℕ → List ℕ → Type 0
Identifies c received answer =
    (h : DoipHeader) × (Header.parse received ≡ some h)
    × (1 ≤ h.payload_type)
    × (h.payload_type ≤ 3)
    × (answer ≡ Vehicle.encode (announcement c))

answered→Identifies :
    (c : DoipConfig) (received answer : List ℕ)
    → answer_received c received ≡ some answer
    → Identifies c received answer
answered→Identifies c received answer answered = elim (Bool-cases (ltb (length received) 8)) [
  | inl short ↦ absurd (cc (rw short at answered))
  | inr long ↦ elim (Option-cases (Header.parse received)) [
    | inl e ↦ absurd (cc (rw (long, e) at answered))
    | inr (h, e) ↦
        let (low, high, same) =
          (identify_iff c h.payload_type answer).0 (rw (long, e) at answered) in
        (h, e, low, high, same)
  ]
]

Identifies→answered :
    (c : DoipConfig) (received answer : List ℕ)
    → Identifies c received answer
    → answer_received c received ≡ some answer
Identifies→answered c received answer (h, e, low, high, same) =
    elim (Bool-cases (ltb (length received) 8)) [
      | inl short ↦ absurd (cc (e, (parse-none_iff received).1 (ltb→lt _ _ short)))
      | inr long ↦ rw (long, e) ((identify_iff c h.payload_type answer).1 (low, high, same))
    ]

-- A datagram is answered exactly when it begins with a header of one of the three identification
-- requests, and the answer is then the announcement of the configured entity.
pub on_datagram_iff :
    (c : DoipConfig) (datagram answer : List ℕ)
    → (on_datagram c datagram ≡ some answer) ↔ (
        (h : DoipHeader) × (Header.parse (take buffer_size datagram) ≡ some h)
        × (1 ≤ h.payload_type)
        × (h.payload_type ≤ 3)
        × (answer ≡ Vehicle.encode (announcement c)))
unfolding on_datagram
on_datagram_iff c datagram answer = (
  answered→Identifies c (take buffer_size datagram) answer,
  Identifies→answered c (take buffer_size datagram) answer,
)
