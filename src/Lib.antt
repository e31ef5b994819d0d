-- ===== src/Lib.antt =====
-- The Liquidity ExEx of reth-exex-liquidity: a plugin of a Reth node that turns the logs of
-- whitelisted liquidity pools into numbered updates for its consumers.
--
-- Parts and how they interact. `PoolTracker` (src/pool_tracker.rs) is the whitelist: updates from
-- the control plane are queued in it, wait while a block is processed, and are applied at the
-- block's end. The main loop (src/main.rs) asks it for each log whether the address is tracked, for
-- each decoded event (src/events.rs) whether its pool is, builds updates (src/types.rs) and puts
-- them on the channel to the socket, each with the next number of one stream; Fluid pools that a
-- block touched are read from storage and decoded once per block (src/fluid_decoder.rs).
--
-- Files.
--   Common       tests, lists, association maps and sets, integers, machine words
--   Types, Wire  src/types.rs: pools and protocols; the socket's messages
--   Events       src/events.rs: `DecodedEvent` and the topic tests of Fluid logs; Events/Decode has
--                `decode_log`
--   Counts       the nine pool counters of `PoolTracker`
--   Tracker      src/pool_tracker.rs: `add_pools`, `remove_pools` and what they call, by those names;
--                Tracker/Updates has the rest of the operations, Tracker/Roles says what a coherent
--                tracker is, Tracker/Invariant has the step relation over the operations,
--                Tracker/Contracts is about the contracts of Balancer pools, and the other
--                children hold the lemmas on adding, removing and replacing
--   FluidConfig  `FluidPoolConfig` and `FluidStorageSlots` of src/fluid_decoder.rs
--   Fluid        src/fluid_decoder.rs: Fluid/Isqrt, Fluid/Prices, Fluid/Reserves and Fluid/Decode have
--                its functions by their names, Fluid/Outcomes what `decode_fluid_reserves` returns
--   Liquidity    src/main.rs: Liquidity/Filter `should_process_event`, Liquidity/Stream the `send_`
--                functions, Liquidity/Ranges the summary of a chain, Liquidity/FluidPool
--                `decode_fluid_pool`, Liquidity/Update `create_pool_update`, Liquidity/Snapshot what
--                the loops read of a held state, Liquidity/Block the loop over a committed block,
--                Liquidity/Keeps, Liquidity/Envelope and Liquidity/Batch what that loop keeps and
--                sends, Liquidity/Protocol the stream as a consumer sees it, Liquidity/Reorg the arms
--                for reorged and reverted chains (Revert and Handle the loops, Finals the messages
--                behind them), Liquidity/Chain the whole main loop over storage
--   Storage      the packed storage words: Storage/Words those of Uniswap and Ekubo pools,
--                Storage/State and Storage/Curve the readers of src/main.rs, Storage/Balancer and
--                Storage/Vault the words, slots and fee layouts of src/balancer_storage.rs with the
--                readers over them, Storage/Bitmap and Storage/Ekubo the tick bitmaps,
--                Storage/Positions, Storage/Bits and Storage/Initialised what is found in them
--   Arena        the arena that the ExEx writes in its own process: Arena/Writer the interface of
--                the writer's crate, Arena/Apply and Arena/Balances src/shadow_apply.rs,
--                Arena/Shadow and Arena/Retier src/shadow_arena.rs; Arena/Reverts and
--                Arena/Counted what they keep
--   Hydration    whole pools for the arena: Hydration/Tiers the tiers and slots of src/main.rs,
--                Hydration/Pools and Hydration/Curve its `_hydration_from_snapshot` functions,
--                Hydration/Batch `build_hydration_batch`, Hydration/Node the readers at a block,
--                Hydration/Live the end of a committed block, Hydration/Promote
--                `promote_overflowed_pools`, Hydration/Adding what src/shadow_arena.rs adds;
--                Hydration/Placed and Hydration/Ticks are about slots, Hydration/Promoted about
--                promotions, Hydration/Held about what is added, Hydration/Named,
--                Hydration/Accounted and Hydration/Startup about batches
--   Balance      the balance monitor's ExEx, src/balance_monitor: Balance/Tokens token_tracker.rs
--                and `process_whitelist_message`, Balance/Receipts `process_notification` and
--                `decode_transfer` of src/transfers/events.rs, Balance/Swaps src/swap_monitor.rs,
--                Balance/Publish the state and the reports, Balance/Monitor the loop with its
--                startup; Balance/Moves, Balance/Undo and Balance/Changed are about transfers,
--                Balance/Confirmed about swaps, Balance/Discovery about tokens, Balance/View,
--                Balance/Agreement and Balance/Resync about what a subscriber knows
--   Nats         src/nats_client.rs: Nats/Parse its parsers, Nats/Handle `canonical_update` and
--                the task of src/main.rs that queues the updates, Nats/Tracked what a message does
--                to the whitelist
--   Tests        samples, and the theorems at them
--
-- Conventions. An address or a 32-byte id is the number that its bytes spell. `HashMap`s are
-- association lists and `HashSet`s lists, with the library's insert, remove and lookup; where the
-- source walks through one, the model walks in the list's order, which is one possible order.
-- Log lines are left out. A `u128` wraps at 2 ^ 128, as in the release build of Cargo.toml, which
-- sets no overflow checks; a `U256` wraps at 2 ^ 256. `none` in the decoder is a panic, a division
-- by zero; the source's own `None` is `some none` there. A counter of stored pools does not
-- reach 2 ^ 64, so its `+= 1` is `+ 1`. The square root's loop runs on fuel `n + 1`, and that it
-- never runs out is part of the theorems on it.
--
-- Assumptions. The invariants of the tracker hold for whitelists in which no address has two
-- roles: a pool of its own, a singleton contract, or the contract of one Balancer pool. `roles` says
-- which it has, `Fits` that an entry of an update agrees with it, `Directory` that the four
-- singleton contracts have theirs. Where the channel is full `try_send` drops the message; which
-- messages it takes is the parameter `accepts`.
--
-- A chain of blocks is a list, oldest first, of rounds: a block with the whitelist updates that
-- arrive before it, before its scan and behind it. In a reorg no update arrives between the last
-- block and the final states. A storage read that panics is `none` in Liquidity/Update; the main
-- loop is modelled in runs without one.
--
-- The main loop is modelled with no arena attached; the arena, its hydration and its promotions are
-- components of their own, over a writer whose laws the theorems name where they need them.
--
-- The decoders of the `sol!` macro are an interface of `decode_log`; the loops take any `decode_log`.
--
-- The balance monitor's database, clock and broker are parameters, gathered in `Node`; `Patient` says
-- that the broker does not refuse three publishes in a row, which are the attempts that one message
-- gets. Its loop is a list of wakes. The parsers of JSON, of hex digits and of addresses are the
-- interfaces `TokenStore` and `Formats`, the decoders of the `sol!` macro `TransferDecoder`,
-- `SwapDecoders` and `AbiDecoders`.
--
-- Hydration reads the arena's slot sizes and the numbering of Ekubo's bitmap from `Layouts`; `Sized` says of
-- the sizes what the comment on `determine_tier` says. A slot is the list of the fields that the source
-- writes into it. `ArenaAdder`, `TierSlots` and `Families` are the writer's calls that add and move slots.
--
-- Not modelled: an error of the state provider or of the node's channels, which ends an ExEx, save in the
-- hydration of live-added pools, which handles it; the start of the main loop with its retries; the socket
-- server, the arena notifier and the ExEx that writes transfers to a database, which are I/O around
-- libraries; configuration by environment variables.
pub mod Common
pub mod Types
pub mod Wire
pub mod FluidConfig
pub mod Fluid
pub mod Events
pub mod Counts
pub mod Tracker
pub mod Liquidity
pub mod Storage
pub mod Arena
pub mod Balance
pub mod Hydration
pub mod Nats
pub mod Tests
