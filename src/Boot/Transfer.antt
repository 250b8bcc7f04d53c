-- ===== src/Boot/Transfer.antt =====
-- flxc1000-boot/src/main.rs: a download from its request to its exit.
use flxc1000_rpi.Prelude.{ℕ, ◌≡◌, refl, sym, ap, ◌∙◌, List, [], ◌∷◌, ◌++◌, append_assoc, append-nil}
use flxc1000_rpi.Ace.{Result, ok}
use flxc1000_rpi.Boot.{BootHandler, request_download, transfer_data, request_transfer_exit}

-- The blocks of a download, each with its counter, and the bytes that they carry.
abbrev pub blocks_bytes : List (ℕ × List ℕ) → List ℕ
blocks_bytes [] = []
blocks_bytes ((counter, bytes) ∷ blocks) = bytes ++ blocks_bytes blocks

abbrev pub counters : List (ℕ × List ℕ) → List (Result (List ℕ))
counters [] = []
counters ((counter, bytes) ∷ blocks) = ok (counter ∷ []) ∷ counters blocks

-- `transfer_data` on one block after the other, with the answers.
unfoldable pub transfer_blocks :
    List (ℕ × List ℕ) → BootHandler → List (Result (List ℕ)) × BootHandler
unfolding transfer_data
transfer_blocks [] h = ([], h)
transfer_blocks ((counter, bytes) ∷ blocks) h =
    let (answer, h') = transfer_data counter bytes h in
    let (answers, h'') = transfer_blocks blocks h' in (answer ∷ answers, h'')

transfer_blocks-append :
    (blocks : List (ℕ × List ℕ)) (h : BootHandler)
    → (transfer_blocks blocks h).0 ≡ counters blocks
      × ((transfer_blocks blocks h).1
          ≡ record h { transfer_buf = h.transfer_buf ++ blocks_bytes blocks })
unfolding transfer_blocks transfer_data
transfer_blocks-append [] h =
    (refl, ap (λ b. record h { transfer_buf = b }) (sym (append-nil h.transfer_buf)))
transfer_blocks-append ((counter, bytes) ∷ blocks) h =
    let (answers, same) =
      transfer_blocks-append blocks (record h { transfer_buf = h.transfer_buf ++ bytes }) in
    (
      ap (λ rest. ok (counter ∷ []) ∷ rest) answers,
      same
          ∙ ap (λ b. record h { transfer_buf = b })
              (append_assoc h.transfer_buf bytes (blocks_bytes blocks)),
    )

-- A download whose blocks come after its request is collected whole: whatever was left of an
-- earlier one, the buffer then holds the bytes of the blocks in their order, every block is answered
-- with its counter, and the exit empties the buffer and leaves the rest of the handler as it was.
pub transfer_blocks-request_download :
    (blocks : List (ℕ × List ℕ)) (h : BootHandler)
    → let (answers, full) = transfer_blocks blocks (request_download h).1 in
      (answers ≡ counters blocks)
      × (full.transfer_buf ≡ blocks_bytes blocks)
      × ((request_transfer_exit full).1 ≡ record h { transfer_buf = [] })
unfolding request_download request_transfer_exit
transfer_blocks-request_download blocks h =
    let (answers, same) = transfer_blocks-append blocks (record h { transfer_buf = [] }) in
    (
      answers,
      ap {A = BootHandler} (λ g. g.transfer_buf) same,
      ap {A = BootHandler} (λ g. record g { transfer_buf = [] }) same,
    )
