-- ===== src/Lib.antt =====
-- The NDN Forwarding Daemon: the decisions of its forwarding plane, of its link service and of its
-- Routing Information Base, modelled from daemon/.
--
-- A packet comes from a face. GenericLinkService splits an outgoing packet into NDNLPv2 fragments and
-- joins incoming ones. An Interest is looked up in the Pending Interest Table, whose entry keeps an
-- in-record for each downstream and an out-record for each upstream; a strategy picks the next hops
-- from the FIB entry with the helpers of daemon/fw/algorithm.cpp, and answers Nacks through
-- daemon/fw/process-nack-traits.cpp. The Dead Nonce List remembers Nonces that have left the table.
-- The Routing Information Base keeps the routes that applications and protocols register; for each
-- batch of changes the FIB updater computes next hops to add to and to remove from the FIB, along the
-- tree of names, sends them as commands to the controller, and lets the RIB take the batch over when
-- they have succeeded.
--
-- The files, with the code that each is about:
--   Packet             the fields of packets and faces that the code reads
--   Pit                daemon/table/pit-entry.cpp and the face records; Pit/Records has the list
--                      operations behind both kinds of record, Pit/Lookup and Pit/Distinct their
--                      laws, Pit/Laws those of the entry
--   Fw/Algorithm       daemon/fw/algorithm.cpp: scope control, duplicate Nonces, next hops
--   Fw/Retx            daemon/fw/retx-suppression-exponential.cpp and -fixed.cpp
--   Fw/NackTraits      daemon/fw/process-nack-traits.cpp
--   Fw/BestRoute       daemon/fw/best-route-strategy2.cpp and best-route-strategy.cpp; Cheapest
--                      relates it to the order of the next hops in Fib
--   DeadNonceList      daemon/table/dead-nonce-list.cpp
--   Fib                daemon/table/fib-entry.cpp: the next hops of a FIB entry
--   Cs                 daemon/table/cs.cpp, cs-entry.cpp and cs-policy-lru.cpp; Cs/Bounds has the
--                      invariant of table and queue, Cs/Recency what an insertion keeps;
--                      Cs/PriorityFifo is cs-policy-priority-fifo.cpp, Cs/Placement its invariant
--   Forwarder          daemon/fw/forwarder.cpp with the actions of daemon/fw/strategy.cpp:
--                      Forwarder/Interests, Nacks and Answers have the pipelines, over the table of
--                      daemon/table/pit.cpp; Loops, Scope, Downstreams, Expiry and
--                      OutgoingNacks their laws; Forwarder/Strategies has the rules of
--                      daemon/fw/multicast-strategy.cpp and random-strategy.cpp, Sendings a law
--   Link               daemon/face/lp-fragmenter.cpp, lp-reassembler.cpp and assignSequences of
--                      generic-link-service.cpp; Link/Reliability and Link/Acks are lp-reliability.cpp,
--                      with laws in Remaining, Budget, RetxBound and Piggyback
--   Rib                daemon/rib/route.hpp, rib-entry.cpp and fib-update.cpp; Rib/Table has the table of
--                      rib.cpp, Rib/Updater and Rib/Changes the computation of fib-updater.cpp,
--                      Rib/Service the queue of batches, the commands and their answers. Lookup,
--                      Refinement and Erasing have the laws of the table, Keeping, Updates, Walk,
--                      Nulls and Erasures those of the computation, Queue and Errors those of
--                      the service, Captures and Costs those of an entry
--   Prelude            the names that the files share, and lemmas on lists
--   Tests              the theorems at concrete inputs
--
-- A name of the source keeps its words: `LpReassembler::receiveFragment` is `receive_fragment`. A
-- method takes the state of its object and gives the new one. A face is its address, a number; its
-- attributes are looked up through a function. Times are nanoseconds as natural numbers, with `now`
-- as an argument, and a scheduled event is the time at which it is due. The calls that a strategy
-- makes on the forwarder are a list of actions in order; the multicast and the random strategy act on
-- the forwarder at once. A failed assertion is `none`. Sequence
-- numbers wrap at 64 bits, as in the code, and so does the counter of routes that capture; sizes of
-- packets and counts of records are not bounded. Loops run over lists, with five exceptions.
-- In Rib, the walk down the tree of entries has the length of the longest name and one as its fuel, since a
-- child's name is longer than its parent's; the way up to the ancestors has the length of the name,
-- since a parent's name is shorter; and sending the queue has the length of the queue, since each call
-- takes one batch from it. The evictions of the priority FIFO policy are as many as the entries above
-- the limit, since each takes one entry from the store. The loop of the idle Ack timer has the length of the
-- queue of Acks, since each packet takes one at least.
--
-- An entry of the RIB is a shared object with pointers to its parent and its children. The model keeps
-- the entries in the table, in the order of the map, and a pointer is the name of an entry. What
-- follows an answer of the controller is a function of the command, which keeps the batch that its
-- callbacks are bound to. A null pointer that is dereferenced is `none` or `null_pointer`, an exception
-- is `thrown`.
--
-- The pipelines of the forwarder take the Content Store, the strategy, the policy for unsolicited Data
-- and the tables of faces and regions as the record `Parts` of operations. A pipeline takes the PIT
-- entry out of the table and stores it at its end, as the code does through a shared pointer. Tags of
-- packets, PIT tokens among them, are left out.
--
-- Code outside this repository is a parameter: the estimator of round-trip times, the wire size of ndn-cxx's packets, Name::isPrefixOf,
-- lp::isLessSevere, std::shuffle, the order and digests of Names, the flags of routes, and the products with floating-point constants.
-- So is CityHash, of which daemon/common has a copy.
--
-- Not modelled: prefix announcements and the signals of the RIB to readvertise; the name tree, the
-- choice of strategies, measurements and the strategies that keep them, which rest on the name tree;
-- sockets, configuration, management commands and the tools, which are input and output around these
-- parts.
pub mod Prelude
pub mod Packet
pub mod Cs
pub mod DeadNonceList
pub mod Fib
pub mod Forwarder
pub mod Fw
pub mod Link
pub mod Pit
pub mod Rib
pub mod Tests
