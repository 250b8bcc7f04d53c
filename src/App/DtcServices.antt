-- ===== src/App/DtcServices.antt =====
-- flxc1000-app/src/main.rs: the DTC services, which are answered without the UDS server.
pub mod Laws
use flxc1000_rpi.Prelude.{
  ℕ, bit_and, ltb, ◌==◌, if◌then◌else◌, Bool, not, List, [], ◌∷◌, ◌++◌, length,
}
use flxc1000_rpi.Bytes.{byte_at}
use flxc1000_rpi.App.{Dtc, SharedState}

unfoldable pub handle_clear_dtc : List ℕ → SharedState → List ℕ × SharedState
handle_clear_dtc request shared =
    if ltb (length request) 4
    then (0x7F ∷ 0x14 ∷ 0x13 ∷ [], shared)
    else (0x54 ∷ [], record shared { dtcs = [] })

abbrev pub is_reported : ℕ → Dtc → Bool
is_reported status_mask d = not (bit_and d.status status_mask == 0)

-- The `for` over the DTCs: what it appends to the response.
unfoldable pub report_dtcs : ℕ → List Dtc → List ℕ
report_dtcs status_mask [] = []
report_dtcs status_mask (d ∷ ds) =
    let rest = report_dtcs status_mask ds in
    if is_reported status_mask d then d.code ++ d.status ∷ rest else rest

unfoldable pub handle_read_dtc : List ℕ → SharedState → List ℕ
unfolding report_dtcs
handle_read_dtc request shared =
    if ltb (length request) 2
    then 0x7F ∷ 0x19 ∷ 0x13 ∷ []
    else if byte_at request 1 == 0x02
    then (if ltb (length request) 3
        then 0x7F ∷ 0x19 ∷ 0x13 ∷ []
        else 0x59 ∷ byte_at request 1 ∷ 0xFF ∷ report_dtcs (byte_at request 2) shared.dtcs)
    else 0x7F ∷ 0x19 ∷ 0x12 ∷ []
