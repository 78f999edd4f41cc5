-- ===== src/Models/TransferFee/Decode.antt =====
-- models/token2022.go: the search of a mint's extensions for its transfer fee. A round of the loop
-- reads an entry of four bytes and more, so the account's length is fuel enough.
use soldex.Base.{
  ℕ, zero, suc, ◌+◌, ◌*◌, ◌≤◌, ◌<◌, ◌≡◌, refl, inl, inr, arith, not, ◌||◌, Option, none, some, List,
  ltb, leb, ◌==◌, if◌then◌else◌, Result, ok, err, insufficient_data, Bool-cases, ltb→le,
}
use soldex.Models.Bytes.{length, slice, little_endian}
use soldex.Models.TransferFee.{TransferFee, TransferFeeConfig}

abbrev pub t2022_account_type_offset : ℕ
t2022_account_type_offset = 165

abbrev pub t2022_tlv_offset : ℕ
t2022_tlv_offset = 166

abbrev pub transfer_fee_config_extension : ℕ
transfer_fee_config_extension = 1

abbrev pub transfer_fee_offset : ℕ
transfer_fee_offset = 72

abbrev pub transfer_fee_len : ℕ
transfer_fee_len = 18

-- From an offset of the account on; the caller has compared the length.
unfoldable pub decode_transfer_fee : (offset : ℕ) → List ℕ → TransferFee
decode_transfer_fee offset bytes = record {
  epoch = little_endian (slice offset (offset + 8) bytes);
  maximum_fee = little_endian (slice (offset + 8) (offset + 16) bytes);
  basis_points = little_endian (slice (offset + 16) (offset + 18) bytes);
}

unfoldable pub decode_config : (body : ℕ) → List ℕ → TransferFeeConfig
decode_config body bytes = record {
  older = decode_transfer_fee (body + transfer_fee_offset) bytes;
  newer = decode_transfer_fee (body + transfer_fee_offset + transfer_fee_len) bytes;
}

unfoldable pub find_transfer_fee :
    (fuel offset : ℕ) → List ℕ → Option (Result (Option TransferFeeConfig))
find_transfer_fee zero offset bytes = none
find_transfer_fee (suc fuel) offset bytes =
    let extension = little_endian (slice offset (offset + 2) bytes) in
    let len = little_endian (slice (offset + 2) (offset + 4) bytes) in
    let body = offset + 4 in
    let rest = find_transfer_fee fuel (body + len) bytes in
    if ltb (length bytes) (offset + 4)
    then some (ok none)
    else if ltb (length bytes) (body + len)
    then some (err insufficient_data)
    else if not (extension == transfer_fee_config_extension)
    then rest
    else if ltb len (transfer_fee_offset + 2 * transfer_fee_len)
    then some (err insufficient_data)
    else some (ok (some (decode_config body bytes)))

unfoldable pub decode_mint_transfer_fee : List ℕ → Option (Result (Option TransferFeeConfig))
decode_mint_transfer_fee bytes =
    let account_type =
      little_endian (slice t2022_account_type_offset (t2022_account_type_offset + 1) bytes) in
    if leb (length bytes) t2022_tlv_offset || not (account_type == 1)
    then some (ok none)
    else find_transfer_fee (length bytes) t2022_tlv_offset bytes

-- A round's offset grows by four and more, and stays within the account.
find_transfer_fee-returns :
    (fuel offset : ℕ) (bytes : List ℕ)
    → offset ≤ length bytes
    → length bytes < offset + fuel
    → (r : Result (Option TransferFeeConfig)) × (find_transfer_fee fuel offset bytes ≡ some r)
unfolding find_transfer_fee
find_transfer_fee-returns zero offset bytes within enough = absurd (omega arith)
find_transfer_fee-returns (suc fuel) offset bytes within enough =
    let extension = little_endian (slice offset (offset + 2) bytes) in
    let len = little_endian (slice (offset + 2) (offset + 4) bytes) in
    elim (Bool-cases (ltb (length bytes) (offset + 4))) [
      | inl ended ↦ (ok none, rw ended refl)
      | inr more ↦ elim (Bool-cases (ltb (length bytes) (offset + 4 + len))) [
        | inl cut ↦ (err insufficient_data, rw (more, cut) refl)
        | inr whole ↦
            let held = ltb→le _ _ whole in
            elim (Bool-cases (extension == transfer_fee_config_extension)) [
              | inr other ↦
                  let (r, later) =
                    find_transfer_fee-returns fuel (offset + 4 + len) bytes held (omega arith) in
                  (r, rw (more, whole, other) later)
              | inl found ↦
                  elim (Bool-cases (ltb len (transfer_fee_offset + 2 * transfer_fee_len))) [
                    | inl short ↦ (err insufficient_data, rw (more, whole, found, short) refl)
                    | inr long ↦ (
                      ok (some (decode_config (offset + 4) bytes)),
                      rw (more, whole, found, long) refl,
                    )
                  ]
            ]
      ]
    ]

-- The search of any account returns.
decode_mint_transfer_fee-returns :
    (bytes : List ℕ)
    → (r : Result (Option TransferFeeConfig)) × (decode_mint_transfer_fee bytes ≡ some r)
unfolding decode_mint_transfer_fee
decode_mint_transfer_fee-returns bytes =
    let account_type =
      little_endian (slice t2022_account_type_offset (t2022_account_type_offset + 1) bytes) in
    elim (Bool-cases (leb (length bytes) t2022_tlv_offset || not (account_type == 1))) [
      | inl bare ↦ (ok none, rw bare refl)
      | inr extended ↦ rw extended (
          find_transfer_fee-returns (length bytes) t2022_tlv_offset bytes (ground arith)
            (omega arith))
    ]
