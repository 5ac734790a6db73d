-- ===== src/Lib.antt =====
-- A model of the tooling that guards the SAN bridge between Solana and Robinhood, the TypeScript in
-- scripts/ and config/, and proofs of what its checks establish.
--
-- The bridge locks SAN in an escrow on Solana and mints it on Robinhood. Before it is activated,
-- scripts/scanProductionInFlight.ts lists the messages between the chains in a manifest,
-- scripts/inFlightInventory.ts validates the manifest, and scripts/checkProductionMainnet.ts puts a
-- snapshot of both chains together that scripts/productionMainnetPolicy.ts holds against the approved
-- values, calling the policies for LayerZero and for the rate limits.
--
-- - Base: tests and results, integers, texts, BigInt and sorting, and the lemmas that read a chain of
--   checks link by link.
-- - Config: constants of scripts/sanMintConfig.ts, scripts/productionMainnetPolicy.ts and
--   config/mainnet.ts. External: the packages that the code calls, as a parameter of the model.
-- - Example: concrete data for the tests, with stand-ins for the packages.
-- - RateLimit: scripts/productionRateLimitPolicy.ts, productionRateLimitProfile,
--   validateProductionRateLimitPlan and validateSolanaProductionRateLimitTask.
-- - LayerZero: scripts/layerZeroConfigPolicy.ts, validateLayerZeroObservation.
-- - InFlight: scripts/inFlightInventory.ts. Data has the types, Json and Encode the canonical text and
--   the checksum, Checks, Message and Parse the body of parseInFlightInventory in the order of the code.
-- - Scan: scripts/scanProductionInFlight.ts. Node has the answers of the nodes and of the API; Solana
--   has extractSolanaOftEvents (Events), the pagination (Pages) and scanSolana (Messages); Robinhood
--   has scanRobinhood (Logs); Statuses has fetchLayerZeroStatuses; Range, Build and Manifest have
--   requireFinalizedRangeEnd, unresolvedStatus and buildInFlightManifest; Production joins them in
--   scanProductionInFlight.
-- - Mainnet: scripts/productionMainnetPolicy.ts. Data has the interfaces; Approved, Context, Programs,
--   Accounting, Roles and Activation are the parts of validateProductionMainnetObservation, joined in
--   Validate. Collect has the pure helpers of scripts/checkProductionMainnet.ts.
-- - ConfigCheck: scripts/checkLayerZeroConfig.ts. Answers has what the chains and the metadata answer;
--   Robinhood and Solana put the observations of the two chains together, Collect joins them in
--   collectLayerZeroObservation and checkLayerZeroConfig.
-- - Checker: scripts/checkProductionMainnet.ts. Environment has approvedStateFromEnv; Answers what the
--   nodes and the decoders give; Programs, Snapshot and Collect are
--   collectProductionMainnetObservation; Text and Normalized the JSON text of a snapshot; Main has
--   validateRepeatedProductionObservations of scripts/productionMainnetPolicy.ts and
--   checkProductionMainnet.
-- - SanMint, Testnet, StoreBindings, Tooling and SolanaContext: scripts/sanMintConfig.ts,
--   scripts/testnetPolicy.ts, scripts/productionStoreBindings.ts, scripts/productionToolingPolicy.ts
--   and scripts/solanaCommonContext.ts.
--
-- A function that throws returns a Result, and its message leaves out addresses and values. A bigint is
-- an integer without bound; a number is an integer or the text of something else. The functions recurse
-- on lists and texts. The digits of a number are written on fuel, one more than the number, of which
-- each digit uses one, and Base/Decimal reads them back. The two paginations take fuel, one unit to a
-- page: Solana's ends where it exceeds the length of the history, Robinhood's where it exceeds the
-- number of blocks by one. A parsed object carries the list of its keys. Letter case is that of ASCII.
--
-- Requests that the code starts together are made one after the other, in the order of the code.
--
-- Not modelled: the nodes, the LayerZero API, the codec of packets and the decoders of accounts, whose
-- answers are inputs; a scan that starts at a negative height; the report that the production checker
-- prints; the tasks for Hardhat and the SDKs in tasks/; the contracts and programs of the two chains.
pub mod Base
pub mod Config
pub mod External
pub mod Example
pub mod RateLimit
pub mod LayerZero
pub mod ConfigCheck
pub mod Checker
pub mod InFlight
pub mod Scan
pub mod Mainnet
pub mod SanMint
pub mod Testnet
pub mod StoreBindings
pub mod Tooling
pub mod SolanaContext
