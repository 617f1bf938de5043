-- ===== src/Lib.antt =====
-- thorflux copies a VeChain chain into InfluxDB. A publisher walks the chain in two directions and
-- sends block events over a channel; a subscriber hands each event to the statistics handlers through
-- a worker pool, or resolves a fork. This library models the publisher, the subscriber and the
-- handlers of the authority list, of the proposers, of the staker, of the transactions, of the blocks,
-- of the liveness and of the prices, and how the program starts.
--
-- Files and code:
--   Base: names shared by all modules, Boolean tests and lists over native numbers, integers, sorting.
--   Chain: blocks, transactions, errors, and the client of a node, which is a parameter.
--   Types: types/types.go, types/authority_node.go. VetUtil: vetutil/vet.go.
--   Retry: common/retry.go. The outcomes of the calls and the clock are functions of the round.
--   Pubsub.Publisher: NewPublisher of pubsub/publisher.go.
--   Pubsub.Backward: pubsub/backward_syncer.go, the range as a list (Range) and the producer, the
--     workers and the context as interleaved steps over the work channel (Workers).
--   Pubsub.Forward: pubsub/forward_syncer.go, a round of Start as a step on the previous block.
--   Pubsub.Fetcher: pubsub/block_fetcher.go, one fetch (fetch_once), the retries and the cache
--     (fetch_block).
--   Pubsub.Events: ProcessBlock of pubsub/event_block.go over the interface BlockSource, which
--     Events.Source fills with the fetcher.
--   Pubsub.Forks: pubsub/fork_handler.go; the database is the list of operations that it receives.
--   Pubsub.Subscriber: what Subscribe of pubsub/subscriber.go does with each event.
--   Pubsub.Pipeline: Run of pubsub/publisher.go and the loop of Subscribe as interleaved steps of the
--     syncers, the subscriber and the context over the block channel, which holds 2000 events.
--     Promise states what the reader of the channel is promised.
--   Pubsub.WorkerPool: pubsub/worker_pool.go as interleaved steps.
--   Stats.Outcome: a value, an error or a panic. Stats.Slices: slices of known parts.
--   Stats.Authority: stats/authority/list.go, its Write in Points, the decoding of the contract's
--     candidates in Decode, excel/excel_helper.go in Registry.
--   Stats.Slots: stats/slots/calculator.go and writer.go; blockchain.go in Blockchain.
--   Stats.Pos: MissedSlots and FutureSlots of stats/pos/staker.go and the totals of
--     createValidatorOverview in stats/pos/writer.go. Unpack: FetchValidations, with the
--     casts of the contract's arrays in Arrays. Individual:
--     createSingleValidatorStats. OverviewPoint, Energy and SlotPoints: createValidatorOverview,
--     createEnergyStats and createSlotPoints. Contract: stats/pos/event_processors.go. Written:
--     createBlockPoints and Write, which puts all of these together.
--   Stats.Transactions: stats/transactions, its Write in Written.
--   Stats.Blocks: stats/blockstats and stats/utilisation. Stats.Liveness: stats/liveness.
--   Stats.Prices: stats/priceapi/priceapi.go; the calls of Write for the blocks one after the other.
--   Database: Latest of influxdb/influxdb.go. Command: cmd/main.go and New of
--     cmd/thorflux/thorflux.go, from the flags to the publisher.
--   Examples: concrete inputs.
--
-- Conventions. Addresses, identifiers and hashes are the numbers that their bytes spell. uint32 and
-- uint64 arithmetic wraps where the code can leave the range. A nil pointer is `none`; a panic is
-- `none` in Stats.Slots, in Stats.Transactions and in the future slots and the energy of Stats.Pos, and
-- `panicked` where an Outcome is returned; in the runs and the interleavings of Pubsub a panic of
-- ProcessBlock, which ends the program, is no step. The order in which Go ranges over a map is a
-- parameter. Messages of errors keep their text without the values that are formatted into them. Log
-- lines are left out.
--
-- Loops without a bound in the code run on fuel, where `none` means that it ran out: the retries (fuel
-- of the maximal wait in clock units and two more is enough if the clock moves), and the walk to the
-- fork point (fuel above the side block's number is enough if numbers fall by one from child to
-- parent). The slot times of Stats.Pos run on the block's timestamp as fuel: each round adds at least one
-- to a time that stays below it.
--
-- Parameters: the node and its contracts, the LRU cache (documented laws of get and add), blake2b, the
-- random stream and the floating-point numbers of the weighted sampling, the scheduler of thor, the
-- decoders of hexadecimal text, of addresses and of contract ABIs, the spreadsheet of owners, and the
-- clock.
--
-- Not modelled: the requests of the database client, the end of the program (Stop and Close), the
-- dashboards and the generated bindings.
pub mod Base
pub mod Chain
pub mod Types
pub mod Retry
pub mod VetUtil
pub mod Pubsub
pub mod Stats
pub mod Database
pub mod Command
pub mod Examples
