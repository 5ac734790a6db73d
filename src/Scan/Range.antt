-- ===== src/Scan/Range.antt =====
-- The end of a scanned range, and the status of a message that has not arrived.
use san_layerzero_bridge.Base.{
  String, Bool, not, ◌||◌, Option, none, some, pos, leb_ℤ, ltb_ℤ, Number, int, other,
  is_safe_integer, Check, throw_if, ◌>>◌, ◌==◌, string_Eq, if◌then◌else◌, false,
}
use san_layerzero_bridge.Base.Text.{concat, to_upper}

-- `x <= 0` of a safe integer
abbrev pub is_not_positive : Number → Bool
is_not_positive (int n) = leb_ℤ n (pos 0)
is_not_positive (other _) = false

-- `a > b` of safe integers
abbrev pub exceeds : Number → Number → Bool
exceeds (int a) (int b) = ltb_ℤ b a
exceeds _ _ = false

-- `requireFinalizedRangeEnd`
unfoldable pub require_finalized_range_end : Number → Number → String → Check
require_finalized_range_end range_end finalized_head label = do
  throw_if
      (not (is_safe_integer range_end)
        || is_not_positive range_end
        || not (is_safe_integer finalized_head)
        || is_not_positive finalized_head)
      (concat label " range end and finalized head must be positive safe integers")
  throw_if (exceeds range_end finalized_head)
      (concat label " scan end is newer than the provider finalized head")

-- `unresolvedStatus`
unfoldable pub unresolved_status : Option String → String
unresolved_status none = "unresolved"
unresolved_status (some api_status) =
    let normalized = to_upper api_status in
    if normalized == "FAILED"
    then "failed"
    else if normalized == "BLOCKED" || normalized == "PAYLOAD_STORED"
    then "blocked"
    else if normalized == "INFLIGHT" || normalized == "CONFIRMING"
    then "in_flight"
    else "unresolved"
