-- ===== src/SolanaContext/Tests.antt =====
-- A batch of two accounts.
use san_layerzero_bridge.Base.{str_eq}
use san_layerzero_bridge.Base.{◌>>◌, throw_if, for_each}
use san_layerzero_bridge.Base.{◌+ℤ◌, ◌-ℤ◌, ltb_ℤ, leb_ℤ, int_eq}
use san_layerzero_bridge.Base.{any, all, includes, list_eq}
use san_layerzero_bridge.Base.Text.{
  is_hash32, is_git_commit, is_digits, is_base58_text, digits_from, parse_digits, to_lower,
  to_upper, is_blank, leq_text, has_0x, has_shape, is_timestamp, digit, show_from, show_nat,
  pad_start,
}
use san_layerzero_bridge.Base.Sort.{insert, sort}
use san_layerzero_bridge.Base.BigInt.{
  drop_spaces, trim_end, trim, digit_value, in_base, is_octal, is_binary, prefixed, negate, signed,
  literal, big_int, take_text, drop_text,
}
use san_layerzero_bridge.InFlight.Json.{
  hex_digit, escape, escape_all, quote, show_number, show_bool, join, member, canonical_json,
  canonical_items, canonical_fields,
}
use san_layerzero_bridge.SolanaContext.{
  check_slot, validate_common_context_envelope, account_header, account_hash, check_requests,
  account_evidence, bind_accounts, collect_solana_common_context, account,
  remaining_cross_call_gaps,
}
use san_layerzero_bridge.Base.{◌≡◌, refl, ok, List, [], ◌∷◌, int, pos, some, none, true}
use san_layerzero_bridge.Example.{packages}
use san_layerzero_bridge.Mainnet.Spec.{AreDistinctAccounts, IsAnchored, labels}
use san_layerzero_bridge.SolanaContext.{AccountRequest, AccountInfo, Responses, Snapshot}
use san_layerzero_bridge.SolanaContext.Laws.{
  requested_labels, collect_solana_common_context-IsAnchored,
}

abbrev requested : List AccountRequest
requested =
    record { label = "OFT Store"; address = 65 } ∷ record { label = "escrow"; address = 66 } ∷ []

abbrev info : AccountInfo
info = record { owner = 7; executable = true; lamports = 12; rent_epoch = none; bytes = 1 ∷ 2 ∷ [] }

abbrev responses : Responses
responses = record {
  finalized_slot_before = int (pos 99);
  context_slot = int (pos 100);
  values = some info ∷ some info ∷ [];
  finalized_slot_after = int (pos 101);
  block = some (record { blockhash = "b"; parent_slot = 99 });
}

abbrev snapshot : Snapshot
snapshot = record {
  evidence = record {
    model = "COMMON_CONTEXT_STRONG";
    commitment = "finalized";
    context_slot = pos 100;
    finalized_slot_before = pos 99;
    finalized_slot_after = pos 101;
    blockhash = "b";
    parent_slot = pos 99;
    accounts =
        account_evidence packages (record { label = "OFT Store"; address = 65 }) info
        ∷ account_evidence packages (record { label = "escrow"; address = 66 }) info
        ∷ [];
    remaining_cross_call_gaps = remaining_cross_call_gaps;
  };
  values = ("65", info) ∷ ("66", info) ∷ [];
}

collected : collect_solana_common_context packages requested responses ≡ ok snapshot
unfolding str_eq ◌>>◌ throw_if for_each ◌+ℤ◌ ◌-ℤ◌ ltb_ℤ leb_ℤ int_eq any all includes list_eq
    is_hash32 is_git_commit is_digits is_base58_text digits_from parse_digits to_lower to_upper
    is_blank leq_text has_0x has_shape is_timestamp digit show_from show_nat pad_start insert sort
    drop_spaces trim_end trim digit_value in_base is_octal is_binary prefixed negate signed literal
    big_int take_text drop_text hex_digit escape escape_all quote show_number show_bool join member
    canonical_json canonical_items canonical_fields check_slot validate_common_context_envelope
    account_header account_hash check_requests account_evidence bind_accounts
    collect_solana_common_context account
collected = refl

collect_solana_common_context-IsAnchored_example :
    (labels snapshot.evidence.accounts ≡ requested_labels requested)
    × AreDistinctAccounts snapshot.evidence.accounts
    × IsAnchored snapshot.evidence
collect_solana_common_context-IsAnchored_example =
    collect_solana_common_context-IsAnchored packages requested responses collected
