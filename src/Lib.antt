-- ===== src/Lib.antt =====
-- A model of the core of the wallet's services, and proofs about it.
--
-- The program is a Next.js application that holds wallets on EVM chains and the XRP ledger. A request
-- to send (app/api/wallet/send/route.ts) passes the rate limiter, reserves an idempotency key and a
-- nonce, is checked against the stored policies and the risk rules, and is queued to be signed; later
-- the chain's receipts move its status. Every attempt is kept in the transfer log, which the risk rules
-- read, and security alerts are delivered through a queue. The parts modelled here are the ones that
-- decide whether and how a transfer goes out, and the queue of alerts:
--
-- Base           what the parts share: tests, lists, text as code units, integers, `BigInt` parsing,
--                `Map` as a list of entries in insertion order, stable sorting, and decimal numerals as
--                keys.
-- Chain          lib/chain-transactions.ts: statuses of transactions and transfers, what other words
--                for them mean, and finality by confirmations. Chain/Depth and Chain/Vocabulary prove.
-- Nonce          services/nonce-reservation.service.ts on its in-memory store: the state is the pair
--                of maps `memoryStates` and `memoryReservations`, each exported function one operation
--                (reserveWalletNonce is reserve_wallet_nonce, updateNonceReservationsByTxHashes is
--                update_by_tx_hashes, and so on), and `step` is one call. Nonce/Reserve lists the
--                outcomes of a reservation; Invariant, Fresh, Again, Update and Actions prove.
-- Idempotency    services/idempotency.service.ts: reserveIdempotencyKey and releaseIdempotencyKey, in
--                memory and in Postgres. Guard states the contract, Memory and Table show that both
--                stores keep it, History draws the safety of a whole history from the contract alone.
-- RateLimit      lib/security/rate-limit.ts: memoryRateLimit here, redisRateLimit and rateLimit in
--                RateLimit/Redis. Memory counts what passes in a window, Closed and Degraded say what
--                happens when Redis fails.
-- TransferLog    services/transfer-log.service.ts: recordTransferAttempt, updateTransferStatus,
--                updateTransferAttemptByTxHash and replaceTransferAttemptsByTxHashes on the list
--                `memoryLogs`; the reading functions in TransferLog/Queries; buildPgUpdateData and
--                mapDbRecord in TransferLog/Postgres; the exported functions, with the fall-back
--                from Postgres to memory, in TransferLog/Service. Counts, Listing and Strict prove.
-- Risk           services/transfer-risk.service.ts: decide, combineDecision and assessTransferRisk.
--                Endpoint says what the AI endpoint can change, Rules that scores grow with amounts.
-- Policy         services/policy.service.ts: listPoliciesForScope, evaluateStoredWalletPolicies and
--                getWalletDailyLimitWei. Demands says what each kind of policy asks; Verdict and
--                DailyLimit prove.
-- AlertQueue     services/security-alert-delivery-queue.ts: InMemorySecurityAlertDeliveryQueueAdapter,
--                its queue and the map of messages in flight; createSecurityAlertDeliveryQueueFromEnv in
--                AlertQueue/Adapter. Conservation and Delivery prove.
--
-- SigningIntent  services/signing-intent.service.ts: the map `memoryIntents` and the files of the archive
--                (lib/storage/wallet-signing-intent-payload.ts) in SigningIntent/Archive, Memory and Create,
--                one operation for each exported function; Calls puts them into sequences, Race lets two
--                overlap. Postgres has the rows and the data of updates, Contend the claim among several
--                workers over the interface IntentTable. Json writes payloads to files and reads them by
--                their schema. Effect, Kept, Update, Backing and Alike are lemmas; Claim, Once and RoundTrip prove, and OneRow has a table with the laws of the interface.
-- IntentWorker   services/signing-intent.worker.ts: processClaimedSigningIntent and the pass over the queue,
--                on the stores of SigningIntent, Nonce and TransferLog and the list of what the network
--                was given. Course, Pass and Failure prove.
-- ChainSync      services/chain-transaction-sync.service.ts: syncRow in ChainSync/Row, with what it indexes in
--                ChainSync/Index, and syncRecentEvmChainTransactions in ChainSync/Pass, on the tables and on
--                the stores of SigningIntent, Nonce and TransferLog. Stands, Moves and Visits say where
--                a row can get to, Agree what a receipt makes of the intents, Outage what comes of rejected calls.
-- TrustedIssuers lib/xrpl-trusted-issuers.ts with getAllowedIssuerSet of lib/xrpl-issued-assets.ts and the
--                currencies of lib/xrpl-amount.ts; TrustedIssuers/Candidates is resolveDestinationCandidates
--                of services/xrpl-swap.service.ts, and Bought proves of it.
--
-- Conventions. A function that changes state takes it and returns it; what it reads from outside (a
-- clock, a random identifier, a reply of the chain, of Redis, of Prisma or of an HTTP endpoint) is an
-- argument, so that an interleaving is a sequence of calls. An awaited call of a part that is modelled
-- is one step: calls do not overlap inside a part, which is so for code between two awaits;
-- SigningIntent.Race says what happens where they do, and SigningIntent.Contend lets other processes act
-- between any two queries. The rows of a network, which ChainSync starts together, run one after another. An error
-- is a value of the part's own type, and `none` where only its presence counts. Numbers are unbounded
-- naturals where the source's are counts, times or identifiers; `Number` where a double may be a
-- fraction or not finite; `double_suc` rounds `n + 1` as doubles do from 2^53 on. Scores are an
-- interface of ordered numbers with the laws that finite doubles have. The loops are
-- over lists and end with them; only `show` takes fuel, n + 1 rounds for the digits of n, of which
-- there are no more. The claim in Postgres counts down its five attempts, and a pass of the worker its
-- batch.
--
-- Outside code is a parameter. Redis is RateLimit.Redis.Client, three commands with any answers;
-- Postgres behind Prisma is Idempotency.KeyTable, with the documented laws of a unique pair of columns
-- in Idempotency.Table.Laws and a table of rows that has them, and
-- SigningIntent.Contend.IntentTable, with the laws of a conditional update that counts; an update of a row of the transfer log
-- is a function that overwrites the columns it is given.
--
-- Not modelled: React views, cryptography, signing and broadcasting through ethers and xrpl, reading
-- the environment, logging, mail, metrics, and the Postgres branch of the nonce reservations. Text is
-- compared by code units; upper and lower case are those of ASCII.
pub mod Base
pub mod AlertQueue
pub mod Chain
pub mod ChainSync
pub mod Idempotency
pub mod IntentWorker
pub mod Nonce
pub mod Policy
pub mod RateLimit
pub mod Risk
pub mod SigningIntent
pub mod TransferLog
pub mod TrustedIssuers
