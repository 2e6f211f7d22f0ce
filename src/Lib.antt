-- ===== src/Lib.antt =====
-- The perpetuals protocol: three CosmWasm contracts and the package of their messages.
--
-- The parts. A virtual market maker (contracts/margined_vamm) keeps two reserves and prices swaps
-- by their product. A price feed (contracts/margined_pricefeed) keeps numbered rounds of prices
-- for each key. A margin engine (contracts/margined_engine) keeps the traders' positions: it
-- answers an order by a message to a vAMM and completes it in `reply`, from the attributes of the
-- vAMM's response. The types of the messages are in packages/margined_perp.
--
-- The files. Base has the names that all share and `Outcome`, how a call ends: `ok`, `err`, or
-- `panic` for an unwrap of a failure and for plain arithmetic that overflows. Cosmwasm has what
-- the contracts take from cosmwasm_std, as data or as parameters. Perp/Vamm, Perp/Pricefeed and
-- Perp/Engine are the files of packages/margined_perp/src; Perp/Messages has what a contract
-- sends. In Vamm, Pricefeed and Engine the modules State, Handle, Query, Contract (and
-- Vamm/Decimals, Engine/Reply, Engine/Querier, Engine/Utils) are the source files of the same
-- names, error.rs is in State, and a function has the name it has in the source; the other modules
-- are proofs, and Tests, AccessTests, PriceTests, SaleTests and SwapTests apply the theorems to
-- concrete storages, with data in Vamm/Market, Engine/Fixture and World/Fixture. Twap says what a
-- time-weighted average price is, apart from the loops of the two contracts that compute one.
--
-- The model. A contract's storage is a record with a slot for each singleton, a function of the
-- key for each bucket or map. A handler takes the storage and returns the new one with the
-- response; a failing one returns no storage, as the host then drops what it wrote. A message in a
-- response carries a payload where the source encodes it, and a query answers with a value. A
-- `Vec` of prices is a list with the last element first.
--
-- The numbers are natural numbers. `Uint128` is a record of operations, a parameter of every
-- function that computes with amounts; `IsUint128` says what their documentation says: a result of
-- 2^128 or more, a difference below zero and a division by zero are errors or panics. The counter
-- of snapshots and seconds are bounded by 2^64 where the source adds or subtracts.
--
-- The loops of the two time-weighted averages are structural recursions, on the counter of the
-- snapshots and on the list of rounds, so that no fuel is needed; the other loops are recursions
-- on lists or on the number of rounds to go back.
--
-- Parameters are also the host's check of addresses, the conversions of timestamps and of numbers
-- to texts (`Api`), the digest of a position's key, the answer of another contract to a query and
-- the decoding of a hook message (`Imports`).
--
-- Engine/Orders says which message an order asks for, without the functions that make it.
-- Pricefeed/Log says what the price feed promises without its storage: an owner, and a log of
-- prices and times for each key. Its functions `run_feed` and `run` in Pricefeed/Answers take a
-- list of calls.
--
-- World puts the contracts together on a host: the engine, the vAMMs by their addresses, and a
-- token. World/Dispatch is what the host is documented to do with a response: it runs a message,
-- hands the result with its events to the engine's `reply` where the message asks for one, and
-- then runs the messages of that reply; a failure that no reply takes undoes the whole
-- transaction. The token is a parameter, a state with a handler (`Chain`). The messages that still
-- wait are run by fuel. Three are enough: a reversal's swap may go on to an increase, whose reply
-- asks for one payment. The engine's queries in World are answered by the vAMMs at the same block.
--
-- Not modelled: the token contract, the encoding of messages and answers, gas, and
-- `_query_vamm_state`, which nothing calls.
pub mod Base
pub mod Cosmwasm
pub mod Perp
pub mod Twap
pub mod Vamm
pub mod Pricefeed
pub mod Engine
pub mod World
