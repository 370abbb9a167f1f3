-- ===== src/Oa/Report.antt =====
-- An OA report as its 32-bit words, and what the header lines of a report say.
use gputop.Base.{
  ◌≡◌, ℕ, ◌*◌, ◌/◌, ◌%◌, ◌^◌, ◌<◌, bit_and, Bool, false, not, List, String, ltb, ◌==◌,
  if◌then◌else◌, get_or, length, All,
}
use gputop.Oa.Device.{DevInfo}

-- A raw snapshot of 256 bytes, as the source reads it through `const uint32_t *`.
abbrev pub Report : Type 0
Report = List ℕ

abbrev pub IsReport : Report → Type 0
IsReport r = (length r ≡ 64) × All (λ w. w < 2 ^ 32) r

abbrev pub word : Report → ℕ → ℕ
word r i = get_or r i 0

-- Byte `k` of the report, on a little-endian machine.
unfoldable pub byte_at : Report → ℕ → ℕ
byte_at r k = word r (k / 4) / 2 ^ (8 * (k % 4)) % 256

abbrev pub invalid_ctx_id : ℕ
invalid_ctx_id = 0xffffffff

-- A test of the bits of a mask.
abbrev has_bits : ℕ → ℕ → Bool
has_bits w mask = not (bit_and w mask == 0)

-- `gputop_cc_oa_report_ctx_is_valid`.
unfoldable pub report_ctx_is_valid : DevInfo → Report → Bool
report_ctx_is_valid devinfo report =
    if ltb devinfo.gen 8
    then false
    else if devinfo.gen == 8
    then has_bits (word report 0) (2 ^ 25)
    else if ltb 8 devinfo.gen
    then has_bits (word report 0) (2 ^ 16)
    else false

-- `gputop_cc_oa_report_get_ctx_id`.
unfoldable pub report_get_ctx_id : DevInfo → Report → ℕ
unfolding report_ctx_is_valid
report_get_ctx_id devinfo report =
    if not (report_ctx_is_valid devinfo report) then invalid_ctx_id else word report 2

-- `gputop_cc_oa_report_get_timestamp`.
unfoldable pub report_get_timestamp : Report → ℕ
report_get_timestamp report = word report 1

-- `gputop_cc_oa_report_get_reason`.
unfoldable pub report_get_reason : DevInfo → Report → String
report_get_reason devinfo report =
    let reason = bit_and (word report 0 / 2 ^ 19) 0x3f in
    if ltb devinfo.gen 8
    then "unknown (gen7)"
    else if has_bits reason (2 ^ 0)
    then "timer"
    else if has_bits reason (2 ^ 1)
    then "internal trigger 1"
    else if has_bits reason (2 ^ 2)
    then "internal trigger 2"
    else if has_bits reason (2 ^ 3)
    then "context switch"
    else if has_bits reason (2 ^ 4)
    then "GO 1->0 transition (enter RC6)"
    else if has_bits reason (2 ^ 5)
    then "[un]slice clock ratio change"
    else "unknown"
