-- ===== src/Lib.antt =====
-- The order books of an exchange and what feeds them, as a library of models and proofs.
--
-- The program: clients (clients/tcp_order_sender.cpp) send FIX messages over TCP.
-- src/network/tcp_order_gateway.cpp parses them with libs/fix/fix_parser.hpp and pushes the orders
-- into src/utils/lock_free_queue.hpp. The thread of src/core/matching_engine.cpp pops each order, adds
-- it to a book behind src/core/i_order_book.hpp, and matches. src/orderbooks/ holds several books with
-- that one interface and different storage.
--
-- Files and code:
--   Core             src/core/Types.hpp, Order.hpp, Trade.hpp: Side, OrderType, Order, Trade
--   Contract         src/core/i_order_book.hpp as an abstract book: two lists in price-time priority.
--                    Contract/Matches has facts on complete matchings, Contract/Runs sequences of calls
--   Containers       what the books use of std::list, std::map and std::unordered_map: OrderList,
--                    Ladder, Index. A node of a list has a cell that an iterator names
--   Resting          one side of a book as the one list of its nodes
--   Matching         the loops of match in the map and vector books; Matching/Indexed is the
--                    invariant that ties orderLookup_ to the nodes (the array book has its own loop)
--   MapBook          src/orderbooks/map_order_book.cpp: add_order is addOrder, cancel_order is
--                    cancelOrder, modify_order is modifyOrder, match_orders is match
--   VectorBook       src/orderbooks/vector_order_book.cpp, with the same names
--   ArrayBook        src/orderbooks/array_order_book.cpp, with the same names; create is the
--                    constructor and ArrayBook/Rounds is match. ArrayBook/Sides reads the arrays as
--                    price levels, ArrayBook/View as an abstract book; Scans and Clearing are about
--                    the flags and the cached prices, Exchange and Matched about match
--   HybridBook       src/orderbooks/hybrid_order_book.cpp, with the same names; HybridBook/Rounds is match
--   PoolBook         src/orderbooks/pool_order_book.cpp, with the same names; PoolBook/Rounds is match,
--                    PoolBook/Slots and Exhaustion the list of free slots, Links and Levels the linked
--                    lists of the levels, View the abstract book, Append, Growing, Entries,
--                    Placing, Add and Filling addOrder, Requantified and
--                    Modify modifyOrder. Ladder stands for its maps
--   Factory          src/core/order_book_factory.hpp: create and getSupportedTypes
--   LockFreeQueue    src/utils/lock_free_queue.hpp: push, pop and size. LockFreeQueue/Threads has the
--                    steps of one producer and one consumer
--   Fix              libs/fix/fix_parser.hpp: parse, getMessageType and getTagValue
--   Metrics          src/core/metrics_collector.hpp: the recording calls and calculateStats
--   Engine           src/core/matching_engine.cpp: process_order is processOrder, Engine/Drain has the last
--                    loop of run and Engine/Loop run, both with a producer that pushes, Engine/System
--                    is the same on a map book. The book is an interface, and the clock a function of the number of
--                    readings
--   Gateway          src/network/tcp_order_gateway.cpp: client_handler is clientHandler on the results
--                    of recv, send and the clock; Gateway/Sending is sendAll
--   Sender           clients/tcp_order_sender.cpp: create_fix_message. Sender/Options and Preparing are what
--                    main does before it connects, Sender/Sending its loop over send. Draws is about the
--                    distributions, Message, Parsing and Lines about a message in the parser, Rounds and
--                    Delivery about the messages in the gateway, Run and System about the whole way to
--                    the book
--   Samples          orders and calls that the tests share
--
-- Conventions: a book is a record, and an operation a function from the book before it to the book
-- after it. Option has none where C++ leaves the behaviour undefined (an end iterator used as a
-- level, front() of an empty list), and where the parser returns std::nullopt. The pool book has a
-- type Outcome for what is undefined and for what it throws. Its match takes as a parameter what the
-- read of the price of an erased level comes to. Ids, prices, quantities and times are native
-- numbers; they are below 2^64, and where the code adds or subtracts so that it could wrap around,
-- `% 2 ^ 64` is written out. The int counter of the array book's updateBestBidCache has 32 bits; where
-- a theorem needs it to visit every level, it asks for at most 2^31 levels.
--
-- Fuel: match runs its outer loop for as many rounds as there are levels and its inner loop for as
-- many as there are orders in the two best levels. Each round takes off at least one, so this is
-- enough, and the theorems on match of the map and array books say that its result is complete. The
-- array and hybrid books' loops have a round for each resting order or level and one more, and those
-- of the pool book a round for each slot and one more; out_of_fuel is not shown to be out of reach
-- there. The engine's loops run along a list of turns of the two threads, and more pops than
-- pushes and slots in the turns of the last loop are enough for it to end. The gateway's loop has a
-- round for each byte. The client's loop over its prices has a round for each number in the range
-- and two more.
--
-- Not modelled: allocation failure; the sockets of the client and the gateway, the gateway's threads
-- and the text of its replies; the client's std::atoi and random distributions, which are parameters;
-- the mean of the latencies, a double; the relaxed memory order of the queue's own loads (each thread
-- reads back its own last store); src/orderbooks/template_order_book.hpp, a skeleton with empty
-- operations; clocks, thread pinning, src/utils/metrics_collector.hpp, the server's main, the
-- benchmarks and the vendored libs/moodycamel.
pub mod Common
pub mod Core
pub mod Containers
pub mod Contract
pub mod Samples
pub mod Resting
pub mod Matching
pub mod Metrics
pub mod MapBook
pub mod VectorBook
pub mod LockFreeQueue
pub mod Engine
pub mod Fix
pub mod Gateway
pub mod HybridBook
pub mod ArrayBook
pub mod PoolBook
pub mod Factory
pub mod Sender
