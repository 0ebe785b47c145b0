-- ===== src/Lib.antt =====
-- Verification of BasedAI's off-chain services (Python): the validator's challenges, scores and
-- commitments, the miner's request handlers and receipts, the gateway's index, routes and poller,
-- and the client's payments.
--
-- How the parts interact. Validators send challenges to miners, score the answers, agree on one
-- score root for an epoch and a Brain, and sign it; the aggregator collects the signatures and
-- submits the root once the signers hold a quorum of the stake. Users pay miners by signed
-- receipts, which a miner batches and redeems. The gateway finds miners for users: it follows the
-- registry's events, verifies the miners' announcements, and passes requests on.
--
-- Files and the code that they model:
--   Merkle      validator/src/basedai_validator/merkle.py: leaves, root, proofs
--   Commitment  validator/src/basedai_validator/commitment.py: digest, signing, recovery
--   Quorum, Aggregator, Candidates
--               validator/src/basedai_validator/aggregator.py: the quorum bound, the
--               CommitmentAggregator and the CanonicalCandidatePool; Aggregator.Onchain: from_chain
--   Scoring     validator/src/basedai_validator/scoring.py: the scores of an epoch
--   Validator   validator/src/basedai_validator/runtime.py: challenges, and the end of an epoch;
--               its child modules join it to the miner's handler and to the service
--   Service     validator/src/basedai_validator/service.py: the routes around both
--   Receipts    miner/src/basedai_miner/receipts.py: receipts and the batch
--   Miner       miner/src/basedai_miner/runtime.py and inference.py: the handlers of requests for
--               inference, settlement and challenges; Miner.Transport: the announcement of
--               http_server.py
--   Gateway     gateway/src/basedai_gateway/indexer.py; Gateway.Server, Gateway.Proxy and
--               Gateway.Ranking: announce.py and the routes of server.py; Gateway.Guard: its guard
--               of URLs; Gateway.Poller: its ChainPoller and CursorStore; Gateway.Small: the case of
--               its addresses; Gateway.Joining joins the gateway to the miner's announcement
--   Client      client/python/basedai_client/client.py: the receipts that `infer` signs, and the
--               choice of the miner; Client.Requests, Client.Answers and Client.Delivery join it to
--               the miner's handlers, Client.Routing to the gateway's proxy
--   Config      miner/src/basedai_miner/config.py, validator/src/basedai_validator/config.py and
--               the checks of gateway/src/basedai_gateway/cli.py: environment variables, addresses
--   Transactions, Registration
--               how transactions are sent to a node with its own state: verify_registration of
--               miner/src/basedai_miner/runtime.py with the command of cli.py, and the one of the
--               validator; Client.Funds: the client's deposits and withdrawals
--   Scripts     scripts/check_solidity.py: the blanking of strings and comments, the brackets;
--               scripts/check_overrides.py: interfaces and override lists
--   Web3        what the code takes from web3 and the eth libraries, as parameters
--   Prelude     numbers, texts, JSON, dictionaries, sorting, exceptions and early returns
--   Tests       the theorems listed below at concrete inputs
-- A class is a record, its methods are functions from the state to a reply and the state after it,
-- and an exception is a value of `Result` or a stage of `Early`. Where a method mutates and then
-- raises, the mutated state is returned beside the exception. A call of the chain's node, where it
-- sends something, is a function of the node's state (`Io`). Texts are lists of code points.
--
-- Bounds and fuel: the loops over the layers of a Merkle tree run on fuel, the number of leaves;
-- out of fuel there is no root and no proof. A layer halves, so it is enough, and the theorems on
-- roots and proofs need no fuel of their own. The poller's walk back over blocks recurs on the
-- block's number, and the validator's questions for the canonical root on how many of the 60 are
-- left. All other loops are structural. The services' integers are Python's, without bounds;
-- amounts, stakes and balances that the contracts return are `uint256`, hence not negative.
--
-- Not modelled: the Solidity contracts and the TypeScript client (other languages); the command
-- lines that only start a component, the parsing of YAML, the regular
-- expressions and the deployment scripts, sockets and gossip; the text that an
-- exception puts into a reply, the logging, and the wall clock, whose readings are arguments. A
-- set's order of iteration is that of a list. The floats of scoring.py are a parameter with the
-- operations that the code uses; floats that scores pass through elsewhere are the integers they
-- come from. `lower` changes ASCII letters only.
-- The stake views that the aggregator and the pool are given return, and answer alike throughout one
-- call. A redemption or a poll may raise after it took effect: the node's state after it and the
-- poller that has advanced are kept beside the exception.
pub mod Prelude
pub mod Web3
pub mod Transactions
pub mod Registration
pub mod Merkle
pub mod Commitment
pub mod Quorum
pub mod Aggregator
pub mod Candidates
pub mod Scoring
pub mod Validator
pub mod Receipts
pub mod Miner
pub mod Service
pub mod Gateway
pub mod Client
pub mod Config
pub mod Scripts
pub mod Tests
