-- ===== src/Scan/Robinhood/Tests.antt =====
-- The scan of Robinhood on the history of the example.
use san_layerzero_bridge.Base.{
  ◌≡◌, refl, [], ◌∷◌, arith, ok, throw_if, ◌>>◌, All, str_eq, ok_inj, leb_ℤ, ltb_ℤ, int_eq,
}
use san_layerzero_bridge.Example.{store, oft, hash}
use san_layerzero_bridge.Scan.Example.{scanner_packages, robinhood_node, log, receive}
use san_layerzero_bridge.Scan.Robinhood.Logs.{
  RobinhoodResult, robinhood_range, scan_logs, scan_pages, scan_robinhood, packet_logs, successful,
  present, received_log_message, scan_parsed, scan_log, scan_page, finalized_block,
}
use san_layerzero_bridge.Scan.Robinhood.Coverage.{between, scan_pages-between}
use san_layerzero_bridge.Scan.Robinhood.Backed.{IsRobinhoodSent, IsRobinhoodReceived, IsLogged}
use san_layerzero_bridge.Scan.Robinhood.Range.{
  AnswersRange, between-IsLogged, scan_robinhood-backed,
}
use mathlib.Core.Path.{subst}
use san_layerzero_bridge.Base.Text.{
  to_lower, is_digits, digits_from, parse_digits, digit, show_from, show_nat, pad_start, is_blank,
}
use san_layerzero_bridge.Base.Sort.{insert, sort}
use san_layerzero_bridge.InFlight.Json.{show_number}
use san_layerzero_bridge.InFlight.Encode.{order_key, canonical_order}
use san_layerzero_bridge.Base.BigInt.{
  drop_spaces, trim_end, trim, digit_value, in_base, is_octal, is_binary, prefixed, negate, signed,
  literal, big_int,
}
use san_layerzero_bridge.Scan.Range.{require_finalized_range_end}

-- Pages of ten blocks.
scan_pages-between_example :
    scan_pages scanner_packages store oft robinhood_node 10 50 42 10
    ≡ scan_logs scanner_packages store oft robinhood_node (between 10 50 (log ∷ []))
scan_pages-between_example =
    scan_pages-between scanner_packages store oft robinhood_node (log ∷ []) 10 10 50 42
      (omega arith) (λ first last. refl) (tt, tt) (omega arith)

abbrev robinhood_seen : RobinhoodResult
robinhood_seen = record {
  range = robinhood_range scanner_packages store oft 10 50 hash hash;
  sent = [];
  received = receive ∷ [];
}

ran : scan_robinhood scanner_packages store oft 4 robinhood_node 10 50 20 ≡ ok robinhood_seen
unfolding str_eq to_lower is_digits digits_from parse_digits digit show_from show_nat pad_start
    insert sort show_number order_key canonical_order drop_spaces trim_end trim is_blank digit_value
    in_base is_octal is_binary prefixed negate signed literal big_int require_finalized_range_end
    ◌>>◌ throw_if leb_ℤ ltb_ℤ int_eq packet_logs successful present received_log_message scan_parsed
    scan_log scan_logs scan_page scan_pages finalized_block robinhood_range scan_robinhood between
ran = refl

pub answers : AnswersRange robinhood_node
answers first last logs h =
    subst (λ l. All (IsLogged first last) l) (ok_inj h) (between-IsLogged first last (log ∷ []))

scan_robinhood-backed_example :
    All (IsRobinhoodSent scanner_packages store oft robinhood_node 10 50) []
    × All (IsRobinhoodReceived 10 50) (receive ∷ [])
scan_robinhood-backed_example =
    scan_robinhood-backed scanner_packages store oft 4 robinhood_node 10 50 20 answers ran
