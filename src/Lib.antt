-- ===== src/Lib.antt =====
-- Sailnet: an onion network whose relays are paid in Nano. A client seals cells in layers for a route
-- of relays; each relay peels one layer, meters the circuit against a prepaid quota, and forwards the
-- rest. Prices, offers and rewards are settled over the Nano ledger, whose blocks also carry the
-- registry of relays. This library models these parts:
--
--   Wire/Cell          sail/wire/cell.go       Cell, Marshal, ReadCell, PaddingCell
--   Wire/Replay        sail/wire/cell.go       replayWindow.accept
--   Wire/Onion         sail/wire/cell.go       HopKeys, sealSeq, openSeq, OnionSeal, PeelForward,
--                                              SealBackward, WrapBackward, PeelBackward
--   Wire/Resume        sail/wire/cell.go       ResumeProof, VerifyResume, hmacEqual
--   Wire/Ws            sail/wire/ws.go         readFrame, Read, writeFrame, HeaderLen
--   Relay/CellQueue    sail/relay/window.go    push, pop, tryPop, close
--   Relay/Quota        sail/relay/quota.go     NewQuota, Credit, Add, Consume, Flush, BytesFor, RawFor
--   Relay/Pricing      sail/relay/pricing.go   Load, Tick, clamp
--   Relay/PriceCap     sail/relay/pricecap.go  nextHopCap, overPriced, capTopUp
--   Relay/Spot         sail/relay/spot.go      spotDecision, sampleSpot, currentSpot, rateNow; PriceNow of
--                                              registry.go, spotFor of gossip.go, repBonus of repbonus.go
--   Relay/Pairing      sail/relay/pairing.go   tryPair, addOwner, LoadOwners, ownerFor, pairingCreate;
--                                              ownerCreate of owner.go
--   Relay/Faucet       sail/relay/faucet.go    ServeHTTP, Counters
--   Relay/Rewards      sail/relay/rewards.go   computePayouts, computeShares, Compliant, PayLevy
--   Relay/Exchange     sail/relay/rpcover.go   the cells of ledger requests and answers (EntryRPC.Call, handleRPC),
--                                              of the gossiped records (sendRelays and FetchRelaysOver of
--                                              gossip.go), and the limiter
--   Relay/Datagram     sail/relay/udp.go       udpConn, Frame, Deframer
--   Relay/Watch        sail/relay/watch.go     Watch, Unwatch, the targets and the subscription of the loop
--   Relay/Gossip       sail/relay/gossip.go    SignedRecord, Verify, AddGossip, Records; the Descriptor of ident.go
--   Relay/Registry     sail/relay/registry.go  Add, Get, All; bridgeWithRecordLocked, gossipRelaysLocked of gossip.go
--   Relay/Server       sail/relay/server.go    one module for each task of a relay:
--     Verify             allowVerify, markBad: which unknown tags may cause a ledger call
--     Create             handleCreate up to the tests on the owner and the quota, acceptSuppliedPayment
--     Payment            creditFromLedger, floorCredit; rewardEpoch of rewards.go
--     TopUp              handleTopUp
--     Metering           handleRelayBatch, lowQuotaCheck, overdraftOK, reply, replyChunks
--     Circuit, Ring      circuit, destroy; sealBackward, wrapBackward, remember, deliver, park, handleResume
--     Pools              poolTag, meterPool, ensurePool, topUpPool, poolExhausted and their bounds
--     Conn               the loop of serveConn over the cells of a connection
--   Token/Ops          sail/token/ops.go       Encode, Decode, the auxiliary fields
--   Token/Registry     sail/token/state.go     Apply, Alive; the fold of Run in indexer.go
--   Nano/State         sail/nano/state.go      Get, Set, SetFromLedger, SetHeight
--   Nano/Account       sail/nano/block.go      frontier, work, signAndPublish, the sends, Receive, ChangeRep
--   Shape/Write        sail/shape/write.go     NewShaper, Write, drain, Flush, cut
--
-- A file beside or below each of these holds its proofs; Common holds what they share, and Runs applies
-- the theorems at small inputs.
--
-- The server's modules meet in the quota: a CREATE goes through Verify, Pairing and Payment and ends in
-- the tests of Create; a batch of Conn goes to Metering, which charges the quota, answers through the
-- ring of its circuit and meters the pool of the next relay; a claim of that relay is weighed by Pools.
--
-- State is passed explicitly: an operation takes the record of its component and returns it with the
-- result. A section under a mutex is one step, and runs are lists of steps or, for the flow control of
-- a stream, a step relation between a sender and a receiver. Byte strings are lists of numbers; uint32,
-- uint64 and int64 keep their wrap-around, an int64 as its bit pattern. A Go map is an association list.
--
-- Loops without a structural argument run on fuel: the loop over padding cells and over frames has the
-- length of the stream, the draining loop of a shaper the length of its queue, and filling a record its
-- padding budget; each round takes from these. Cutting a text into cells and reading datagrams have
-- the length of the text. The counts of the source are kept: 30 looks for a parked circuit, 8 rounds of
-- asking for a top-up and 5 for a supplied payment, 256 cells of an answer and 64 of the records. What
-- other parts of the relay do in the pauses of these rounds is an argument, a function on the shared state.
--
-- Parameters are the cipher, the hashes and signatures, random bytes, floating-point arithmetic, the
-- answers of the Nano client, the file of a pairing code, whether a text says an error, and the
-- padding cells. Not modelled: sockets and TLS, the HTTP servers, JSON and decimal text, files other
-- than the quota's log and what pairing keeps; of the relay server the extension of a circuit, the
-- exit streams, homes and bridges, and the writer behind a link; the client's path selection, the
-- refresh of the registry from the ledger, and the apps around them.
pub mod Common
pub mod Wire
pub mod Relay
pub mod Token
pub mod Nano
pub mod Shape
pub mod Runs
