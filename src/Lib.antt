-- ===== src/Lib.antt =====
-- coter: a C library of containers, byte buffers, encodings and synchronisation objects.
--
-- The parts modelled, each file under the path of the code that it is about:
--
-- Container/Queue.antt: container/src/queue.c and container/include/coter/container/queue.h, a ring
-- of fixed-size elements over memory of the caller. `Queue` is ct_queue_t, and `init`, `enqueue`,
-- `dequeue`, `peek` (ct_queue_head) and `traverse` are its calls. Container/Fifo.antt is the FIFO
-- that it is compared with. Container/Stack.antt: container/src/stack.c and its header, likewise.
-- Sync/MsgQueue.antt: sync/src/msgqueue.c, that queue shared by threads under a mutex and two
-- condition variables. Each stretch of a call between taking and giving up the mutex is one step
-- on the shared state. A call that waits takes the list of what its waits come back with: the clock
-- before, the code, and the state that the other threads left. Trace.antt runs any sequence of
-- the steps that change the state, Wait.antt relates the calls that wait to those that do not.
-- Bytes/MsgBuf.antt: bytes/src/msgbuf.c and its header, a buffer that is written from the start.
-- Encoding/Binary.antt: encoding/include/coter/encoding/binary.h, the byte swaps and the loads and
-- stores of words of a given byte order; Native.antt and Batch.antt have the accesses in the host's
-- order, the forms with an offset, and the swaps over arrays (encoding/src/binary.c). `host` is the
-- byte order of the machine, a parameter; a word in memory is the list of its bytes in that order.
-- Bytes/RingBuffer.antt: bytes/src/rbuf.c and bytes/include/coter/bytes/rbuf.h, a ring of bytes.
-- Bytes/ByteBuffer.antt: bytes/src/bytes.c and bytes/include/coter/bytes/bytes.h, a buffer with a
-- position, a byte order, a word swap and an overflow flag. Words.antt has the accesses of single
-- words, which call the swaps of Encoding/Binary.antt; Blocks.antt those of blocks of bytes;
-- Call.antt and Run.antt any sequence of calls.
--
-- Sync/WaitGroup.antt: sync/src/waitgroup.c, Sync/Event.antt: sync/src/event.c and Sync/RwLock.antt:
-- sync/src/rwlock.c, with waits given as for the message queue; of the last two the versions over a
-- mutex and condition variables, as of the semaphore of sync/src/sem.c in Sync/Sem.antt. The codes of the
-- system's calls are arguments.
--
-- Sync/Ref.antt: sync/src/ref.c, a reference count as functions of its value; the loops over a compare
-- and swap take the list of what their attempts saw. Sync/PubSub.antt: sync/src/pubsub.c on the list
-- of subscribers. Sync/Shutdown.antt: the timeout signal and the token of
-- sync/src/shutdown_signal.c; a wait takes what its rounds find.
--
-- Container/Array.antt: container/src/array.c and container/src/vector.c, an array that grows; realloc
-- is a parameter, with what it keeps as a hypothesis. Container/PriorityQueue.antt:
-- container/src/pqueue.c and its header, a heap with four children to a node; the storage is a
-- function from the index, realloc a parameter, and the comparison is given by a rank. Container/IntrusiveList.antt:
-- container/src/list.c and its header, over a store of the links of all nodes; Chain.antt says which
-- nodes a head has.
--
-- Encoding/Hex.antt: encoding/src/hex.c. Encoding/Base64.antt: encoding/src/base64.c, with the text that
-- the encoder writes described in Text.antt. Encoding/Bcd.antt: encoding/include/coter/encoding/bcd.h.
--
-- Thread/Pool.antt: thread/src/thpool.c; each stretch of a submit, of a worker or of a close between
-- taking and giving up the lock is a function of the pool. System.antt has the pool with its
-- threads and every move that one of them may make next.
--
-- Thread/JobPool.antt: thread/src/jobpool.c over the message queue; how a job lies in memory is a
-- parameter, with the law that it can be read back. Order.antt runs any sequence of calls on a pool.
--
-- Opt/Parser.antt: opt/src/opt.c and opt/include/coter/opt/opt.h, the options of a command line, whose
-- types are in Opt/Options.antt; `next` is ct_opt_next, with argv as a function from the index. Spec.antt is a parser on the list of the
-- arguments left, which moves nothing; Progress.antt is about a caller's loop. Opt/Help.antt: the
-- usage line and the help of the same files, as texts; a description is printed word by word.
--
-- Crypto/Md5.antt: crypto/src/md5.c and its header, with md5_transform in Md5/Rounds.antt and the
-- digest of a whole padded message in Md5/Digest.antt; Crypto/Sha1.antt: crypto/src/sha1.c and its
-- header, in the same way, for machines of both byte orders. Crypto/Hash.antt:
-- crypto/src/hash/hash.c. Blocks.antt has what a digest needs of blocks.
--
-- Base.antt and the files under Base/ have what the parts share: tests, lists under native numbers,
-- memory as a list of bytes with reads and writes of blocks, and bitwise operations on words.
--
-- Memory: what a pointer points to is the list of the bytes there; a null pointer is `none`, or
-- `false` for a destination, where the code tests for it. A destination's bytes come back as a result.
-- The guards on a null object itself are left out, except in Bytes/MsgBuf.antt and Thread/JobPool.antt:
-- elsewhere the model always has the object. memcpy and
-- memmove copy between blocks that do not overlap, or as memmove does.
--
-- Numbers: size_t has 64 bits and its arithmetic is taken modulo 2 ^ 64, where the code could
-- wrap round; the fields of ct_bytes_t have 32 bits, and int 32 bits. Bounds on capacities are
-- hypotheses where a wrap would break what is stated, and are named there.
--
-- Loops: recursions are structural, in the list, the count of elements or the waits given, except for
-- the loops of Sync/PubSub.antt, Container/PriorityQueue.antt, Opt/ and ct_list_size. These have fuel: one
-- round more than there are subscribers; as many rounds as argv has entries, or one more than a
-- description has characters; the index that the loop climbs from, or as many rounds as
-- there are elements, of which each goes to a higher index; and a number above the length of the
-- list. A call that waits may run out of waits, and is then still blocked; `timed_return` says when
-- it cannot be.
--
-- Not modelled: the calls of the operating system under mutexes, condition variables, threads, time
-- and files, since they are not code of the library; whether a waiting thread is woken at all; and
-- the parts of the library not named above: the pairing heap and the helpers of core/.
pub mod Base
pub mod Container
pub mod Encoding
pub mod Bytes
pub mod Sync
pub mod Thread
pub mod Opt
pub mod Crypto
