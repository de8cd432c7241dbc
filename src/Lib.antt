-- ===== src/Lib.antt =====
-- Verification of the Go library gocore: the data structures and services of the repository that keep their
-- own state.
--
-- The program is a collection of packages that share little. container.go is the heap that orders the cached
-- encodings of jsonUtil.go, an encoder with a cache, go-lock.go a lock that machines share over redis,
-- B-Tree/btree.go a B-tree under copy on write, FIFO.go a queue in a slice, rateLimiter.go a limiter that
-- counts requests in windows of time, retryQueue.go a queue of tasks that are tried again, gin/ the core of a
-- router for HTTP with its form bindings, and sync/ the mutexes.
--
-- Heap and its children model container.go: the record Heap has the three fields of the struct, and swap, up,
-- down, insert, delete, peek_max and peek_min are its methods. The recursion of down and the loop of up take
-- fuel; Heap.down and Heap.up give as much as there are slots on the way, which the theorems about them show
-- to be enough.
--
-- BTree models B-Tree/btree.go. Items has the slices and items.find, Node the node with mutableFor, split and
-- maybeSplitChild, Insert node.insert, Tree the type BTree with ReplaceOrInsert, Get, Min and Max, Remove the
-- deletions, Iterate the walks, FreeList the free list with reset and Clear. A node is the value that a
-- pointer refers to, with the context that owns it; a nil pointer is `null`. Fuel is the number of levels.
-- Order says what a tree stands for, a list sorted by rank; Find, Weave, Splice, Shape, Insertion, Put, Valid,
-- Lookup, Walks, Copies and Reset hold the theorems. Items are compared by a rank, which stands for the method
-- Less. Not modelled: print, and which of the free nodes a new node is.
--
-- RateLimiter models rateLimiter.go: acquire is the locked part of TryAcquire, clear the goroutine that it
-- starts at the end of a period, try_acquire a whole call; readings of the clock are arguments. Steps has the
-- callers and the goroutine as a step relation, one locked section at a time; Windows, Bounds, Expiry and
-- Returns hold the theorems. The fuel of try_acquire is the number of readings of the clock.
--
-- Gin models the context of gin/context.go with gin/tree.go's Params: Maps has strings, which are lists of
-- bytes, and maps; Context the keys and parameters, Queries the cached query and form, Chain Next, Abort and
-- combineHandlers of gin/routergroup.go, Proxies ClientIP with validateHeader of gin/gin.go, Keys and Dicts
-- theorems. Routes has the groups of routes and the engine's part of their set-up, with the tree of a method
-- and the joining of paths as arguments; Registered and Setup are about any calls of it. Requests has
-- handleHTTPRequest, whose search in a tree, cleaning of paths and writer are arguments, and Decisions what it
-- decides. Handlers are named by numbers, and what they do is an argument, given the Next that they may call.
-- The fuel of Next bounds the nesting of its calls and the turns of a loop. The parsing of requests and of
-- addresses is an argument. Not modelled: the trees of the engine, responses, files and the typed getters of
-- some types. ClientIP's log line is left out, and its comparison of the App Engine header with nil is read as
-- one with the empty string.
--
-- Fifo models FIFO.go; the loop of expansionCap takes fuel for twice the slice. RetryQueue models
-- retryQueue.go: work is the loop of a worker, with the results of the calls as an argument, on_remained and
-- on_signal are the two turns of Run. heap.Push of the Go library is an argument. Fuel for work is one more
-- than its retries, of which a negative number counts as none. Not modelled: the blocking of channels and the
-- test against copies.
--
-- Mutex models sync/mutex.go: one function for the word that each atomic access swaps in, and in Steps the
-- accesses of any number of callers in any order; Exclusion has the theorems. Readers models the operations of
-- sync/rwmutex.go. The semaphores, the clock and the race detector are not modelled; the number of waiters is
-- not bounded by the width of the word.
--
-- Json models jsonUtil.go. Cache has the encoder with store and load over the heap, an address being a number
-- and an encoding its bytes; Value the values by their kinds, Encoding marshal and combineToJson, Marshal the
-- exported function. What strconv writes for floats and complex numbers is a part of the value. Accounts,
-- History, Room, Refusals and Again hold the theorems of the cache, Errors and Commas those of the encoder.
-- Not modelled: the test against copies of the encoder.
--
-- Lock models go-lock.go. Redis is the interface of the server and of the client's messages, with the effects
-- of the commands as laws; Config has the options, the machine's id and NewMutex, Calls TryLock, the renewal,
-- the release and UnLock, Backoff the loop of Lock, whose fuel is the number of attempts. Owner, Renewal and
-- Nodes hold theorems. Nodes lets any machines act in any order on one name. Times are numbers of nanoseconds;
-- the deadline of a command is one way for its message to be lost.
--
-- Binding models gin/binding/form_mapping.go. Target has the values of a struct with their types, which a map
-- of texts is put into, Parse the numbers that strconv reads, Set the setters, Mapping the walk over the
-- fields; an error leaves what was set before it. Typed says what a value of a type is; Unset, Numbers, Reads,
-- Setters and Types hold theorems. Floats, times and JSON are read by the libraries, which are an argument.
--
-- Netpoll models the state of an operator in netpoll/fd_operator.go, with its goroutines as steps in
-- Exclusion. Its children model other files of netpoll/: Polls the manager of poll_manager.go, whose pollers
-- are numbered in the order in which they are opened; ZcReader and ZcWriter the types of nocopy_readwriter.go,
-- over Buffer, which has what they call of LinkBuffer, of an io.Reader and of an io.Writer, with the laws that
-- these document; Connection and its children Until and Waiting a connection of connection_impl.go and
-- connection_reactor.go, with the steps of its reader, the poller and who closes it in Wakes; PollDesc
-- net_polldesc.go. LinkBuffer, the load balances, sendmsg and onRequest are not in the repository and are
-- arguments. The fuel of waitRead is the number of its calls of fill, and that of Until the number of its
-- waits; the theorems show that as many as there are bytes missing, or to come, are enough. Managed, Keeps,
-- Picks, Stream, Waits, Flushes, Output, Lines, Arrivals, Sizes, Sends and Awake hold theorems. Waiting has
-- the waits with a read timeout, Wakes those without. The number of slices in a vector, barriercap, is an
-- argument, too. Not modelled: the timeout of a flush, a connection's callbacks, and what calls the operating
-- system.
--
-- Common has the shared names: tests, lists and slices, signed integers, exclusive or, and Run, the ways a
-- call can end: with a value, in a run-time panic, or out of the fuel of the model.
--
-- Integers are unbounded where the code only counts what is in memory or reads a clock; where a width matters,
-- it is written out: int8 in Gin.Chain, int64 in Common.Int. The heap's words are 64-bit words, which
-- exclusive or and copying do not leave. Not modelled: the rest of netpoll/, and memoryAlloc/, DHT/ and
-- systemCall/.
pub mod Common
pub mod Heap
pub mod BTree
pub mod RateLimiter
pub mod Gin
pub mod Fifo
pub mod RetryQueue
pub mod Mutex
pub mod Json
pub mod Lock
pub mod Binding
pub mod Netpoll
