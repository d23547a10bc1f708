-- ===== src/Lib.antt =====
-- A model of the st0x REST API server (a Rocket server in Rust) and of what makes it correct.
--
-- A request first passes guards: the global rate limit, then the authentication by an API key with
-- the key's own limit, and for the administration a further test. A handler then asks the raindex
-- client for orders, vaults or calldata and builds a response from the answers. Errors are values
-- of one type, which becomes a status and a JSON body.
--
-- The files and the code that they model:
--   Prelude, Prelude/: lists over native numbers, results, maps, slots written by index, and groups
--     of the places of a list by a key.
--   Bytes, Text: byte strings and texts (lists of code points) with Rust's operations on them.
--   ApiError: src/error.rs, and api_error_message of src/routes/tokens.rs.
--   RateLimiter: src/fairings/rate_limiter.rs, the limiter. check_global and check_per_key take the
--     state and the readings of the two clocks and return the new state and the verdict. Log has
--     the abstract limiter, Tracks and Window how the windows stand for it.
--   Guards: the same file's guard of the global limit and its fairing of headers, and the
--     request-local caches.
--   ApiKeys: the table of keys and the commands of src/cli.rs.
--   Auth: src/auth.rs, in the order of the guard's early returns; a panic is an outcome.
--   Sdk: the values read from the raindex client, as records of what the accessors return; Sdk/Word
--     has the conversions of machine integers.
--   Floats: the float package, as a record of operations each of which may fail. Floats/Exact says
--     when they are exact, Floats/Trits is an instance that is.
--   IoVaults: resolve_io_vaults of src/routes/mod.rs.
--   Denomination: src/denomination.rs.
--   Orders: src/routes/orders/mod.rs, get_by_owner.rs and get_by_token.rs. Kind classifies an
--     order, Quotes fetches by chain, Cache is the cached batch, Summaries builds the responses,
--     Listing has the two routes.
--   Swap: src/routes/swap. Amounts is denomination.rs, Process is quote.rs and calldata.rs.
--   Vaults: src/routes/vaults.rs; Positions has the vaults of an owner.
--   Registry: src/routes/admin.rs and src/registry_artifact.rs.
--   WrapRatio: src/wrap_ratio.rs and src/erc4626.rs; Rows reads the ratios of a set of addresses,
--     over the batch by chain that tries the chain's RPCs in turn. Snapshots is the table of
--     src/db/wrapped_exchange_rate_history.rs and what is written to it.
--   Trades: src/routes/trades and src/types/trades.rs. Listing maps trades for the lists, ByTx has
--     the trades of a transaction and their totals, Source the data source over the client's calls,
--     Cached the response caches.
--   Tokens: the wrap ratios of src/routes/tokens.rs. Public is the list of tokens, History has
--     their history by pages, Graphql the request to a subgraph with its attempts and the body that
--     is logged, Proofs the proofs of a token. Cursor, Details and Listing are
--     src/routes/token_details.rs: the loops over cursors, the details of a token, and the list of
--     the details of all tokens.
--   Order: src/routes/order/get_order.rs and cancel.rs; Source is the data source of mod.rs.
--   AppCache: src/cache.rs. A cache is a state that a call takes and returns.
--   Catchers: src/catchers.rs.
--   Health: src/routes/health.rs and src/types/health.rs.
--
-- State is passed explicitly. A call of the database, the file system or the client is an argument
-- of the definition that makes it: a function, or a flag for whether the call succeeds. Awaiting is
-- a plain call, except where the order of completion matters: the groups of quotes come back in
-- any order. Addresses, hashes and words are natural numbers; sums of 256-bit words and the counter
-- of checks wrap around. An instant is a number of nanoseconds, and the cutoff 60 seconds before it
-- stops at 0. Log lines and spans are left out.
--
-- The loop over the pages of vaults has fuel: page numbers are 16-bit, so 65535 turns are enough.
-- The loops over the cursors of a subgraph end when a page is not full, which is for the subgraph
-- to say; their fuel is a number of pages, and more fuel than full pages is enough. The three
-- attempts of a request to a subgraph and the chunks of a body are structural recursion. What a
-- request to a subgraph waits for is in its answer, as a trace of attempts and pauses.
--
-- The snapshots that a handler persists besides its answer do not change the answer: the handlers
-- here return the answer, and WrapRatio/Snapshots has the writing of the table on its own.
--
-- Not modelled: the caches of the lists of orders and of swap candidates, the lookup of the
-- registry, start-up, logging, and the routes without a body.
pub mod Prelude
pub mod Bytes
pub mod Text
pub mod ApiError
pub mod Sdk
pub mod Floats
pub mod RateLimiter
pub mod Guards
pub mod ApiKeys
pub mod Auth
pub mod IoVaults
pub mod Denomination
pub mod Orders
pub mod Swap
pub mod Vaults
pub mod Registry
pub mod WrapRatio
pub mod Trades
pub mod Tokens
pub mod Order
pub mod Health
pub mod Catchers
pub mod AppCache
