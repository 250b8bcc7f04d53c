-- ===== src/App/DtcServices/Laws.antt =====
-- flxc1000-app/src/main.rs: what a tester reads from the report of the DTCs.
use flxc1000_rpi.Prelude.{
  ℕ, ◌≡◌, ◌≤◌, refl, ap, ltb, ltb→lt, not_ltb→le, ◌<◌, ◌⊎◌, ◌∙◌, Bool-cases, inl, inr,
  if◌then◌else◌, Option, none, some, List, [], ◌∷◌, ◌++◌, length, All, arith,
}
use flxc1000_rpi.App.{Dtc, SharedState}
use flxc1000_rpi.App.DtcServices.{is_reported, report_dtcs, handle_read_dtc, handle_clear_dtc}

-- The tester's side: a report is a row of groups of four bytes.
abbrev add_dtc : Dtc → Option (List Dtc) → Option (List Dtc)
add_dtc d none = none
add_dtc d (some ds) = some (d ∷ ds)

unfoldable pub parse_dtcs : List ℕ → Option (List Dtc)
parse_dtcs [] = some []
parse_dtcs (a ∷ b ∷ c ∷ s ∷ rest) =
    add_dtc (record { code = a ∷ b ∷ c ∷ []; status = s }) (parse_dtcs rest)
parse_dtcs _ = none

unfoldable pub reported : ℕ → List Dtc → List Dtc
reported status_mask [] = []
reported status_mask (d ∷ ds) =
    let rest = reported status_mask ds in if is_reported status_mask d then d ∷ rest else rest

abbrev pub HasCode : Dtc → Type 0
HasCode d = length d.code ≡ 3

parse_dtcs-add :
    (code : List ℕ) (status : ℕ) (rest : List ℕ)
    → length code ≡ 3
    → parse_dtcs (code ++ status ∷ rest)
      ≡ add_dtc (record { code = code; status = status }) (parse_dtcs rest)
unfolding parse_dtcs
parse_dtcs-add [] status rest h = absurd (omega (arith, h))
parse_dtcs-add (a ∷ []) status rest h = absurd (omega (arith, h))
parse_dtcs-add (a ∷ b ∷ []) status rest h = absurd (omega (arith, h))
parse_dtcs-add (a ∷ b ∷ c ∷ []) status rest h = refl
parse_dtcs-add (a ∷ b ∷ c ∷ d ∷ more) status rest h = absurd (omega (arith, h))

parse_dtcs-report :
    (status_mask : ℕ) (ds : List Dtc)
    → All HasCode ds
    → parse_dtcs (report_dtcs status_mask ds) ≡ some (reported status_mask ds)
unfolding parse_dtcs report_dtcs reported
parse_dtcs-report m [] h = refl
parse_dtcs-report m (d ∷ ds) (here, later) = elim (Bool-cases (is_reported m d)) [
  | inl hit ↦ rw hit (
      parse_dtcs-add d.code d.status (report_dtcs m ds) here
      ∙ ap (add_dtc d) (parse_dtcs-report m ds later))
  | inr miss ↦ rw miss (parse_dtcs-report m ds later)
]

-- The answer to a request for the DTCs by a status mask starts with its three bytes, and a tester
-- that takes the rest in groups of four reads exactly the stored DTCs with a bit of the mask in
-- their status, in their order, where every stored code has three bytes.
pub handle_read_dtc-reported :
    (status_mask : ℕ) (more : List ℕ) (shared : SharedState)
    → All HasCode shared.dtcs
    → (report : List ℕ) × (handle_read_dtc (0x19 ∷ 0x02 ∷ status_mask ∷ more) shared
        ≡ 0x59 ∷ 0x02 ∷ 0xFF ∷ report)
      × (parse_dtcs report ≡ some (reported status_mask shared.dtcs))
unfolding handle_read_dtc
handle_read_dtc-reported m more shared h =
    (report_dtcs m shared.dtcs, ground arith, parse_dtcs-report m shared.dtcs h)

-- A request to clear of four bytes or more, whatever group it names, is answered with 0x54, and
-- after it a report by any mask holds no DTC; a shorter one is refused and keeps every DTC.
pub handle_clear_dtc-read :
    (request : List ℕ) (status_mask : ℕ) (more : List ℕ) (shared : SharedState)
    → let (response, after) = handle_clear_dtc request shared in
      ((4 ≤ length request)
        × (response ≡ 0x54 ∷ [])
        × (handle_read_dtc (0x19 ∷ 0x02 ∷ status_mask ∷ more) after ≡ 0x59 ∷ 0x02 ∷ 0xFF ∷ []))
      ⊎ ((length request < 4) × (response ≡ 0x7F ∷ 0x14 ∷ 0x13 ∷ []) × (after ≡ shared))
unfolding handle_clear_dtc handle_read_dtc report_dtcs
handle_clear_dtc-read request m more shared = elim (Bool-cases (ltb (length request) 4)) [
  | inl short ↦ rw short (inr (ltb→lt _ _ short, refl, refl))
  | inr long ↦ rw long (inl (not_ltb→le _ _ long, refl, ground arith))
]
