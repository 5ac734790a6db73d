-- ===== src/Config.antt =====
-- Constants of scripts/sanMintConfig.ts, scripts/productionMainnetPolicy.ts and config/mainnet.ts.
use san_layerzero_bridge.Base.{String, ℤ, pos}

abbrev pub canonical_san_mint : String
canonical_san_mint = "GQz5ThKHNcuAvMKA8rCPSdoFUoApk9Fi8qB9m3Gqpump"

abbrev pub legacy_spl_token_program : String
legacy_spl_token_program = "TokenkegQfeZyiNwAJbNbGKPFXCWuBvf9Ss623VQ5DA"

abbrev pub token_2022_program : String
token_2022_program = "TokenzQdBNbLqP5VEhdkAS6EPFLC1PHnBqCXEpPxuEb"

abbrev pub production_solana_oft_program : String
production_solana_oft_program = "9myHzfqsbJfGbYxpCvVCYqLaB4Co1RCo2a8T4QSkTvcD"

abbrev pub solana_mainnet_genesis_hash : String
solana_mainnet_genesis_hash = "5eykt4UsFv8P8NJdTREpY1vzqKqZKvdpKuc147dw2N9d"

abbrev pub production_solana_endpoint : String
production_solana_endpoint = "76y77prsiCMvXMjuoZ5VRrhG5qYBrUMYTE5WgHqgjEn6"

abbrev pub production_robinhood_endpoint : String
production_robinhood_endpoint = "0x6f475642a6e85809b1c36fa62763669b1b48dd5b"

abbrev pub solana_upgradeable_loader : String
solana_upgradeable_loader = "BPFLoaderUpgradeab1e11111111111111111111111"

abbrev pub forbidden_test_oft_store : String
forbidden_test_oft_store = "49DdSvei9Yo2ymJYDYgNTo8JqGha6HNynKxSXxqzggSv"

abbrev pub address_zero : String
address_zero = "0x0000000000000000000000000000000000000000"

-- `MAINNET_CONFIG`
abbrev pub solana_eid : ℤ
solana_eid = pos 30168

abbrev pub robinhood_eid : ℤ
robinhood_eid = pos 30416

abbrev pub robinhood_chain_id : ℤ
robinhood_chain_id = pos 4663
