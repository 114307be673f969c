-- ===== src/Lib.antt =====
-- A verification library for the web server of webserver/ and for the studies in chapter_1/ to
-- chapter_5/ that it grew out of.
--
-- The server. main (webserver/main.cpp) waits for the events of epoll. It accepts a connection into
-- the table of http_conn objects, reads what a client sends into the buffer of its object, and hands
-- the object to the thread pool (webserver/threadpool.h). A worker calls http_conn::process
-- (webserver/http_conn.cpp): process_read parses the request, which may arrive in any number of parts
-- with one call for each, looks for its file, and process_write puts a response into the write buffer.
-- When the socket may be written, main calls http_conn::write. An object that has failed, or whose
-- client has gone, is given up by close_conn.
--
-- The files, with the code that they model:
--   Base, Base/Lists, Base/Int, Base/Tests: what all share; lists and integers over the native numbers.
--     `int` is ℤ, brought into the range of 32 bits by to_int where the code converts.
--   CString: the functions of the C library on strings that the parsers call, on a buffer of bytes and
--     an offset; atol, and what %d prints. Its children bound how far they reach (Bounds), count
--     digits (Decimal), and follow them over words (Words).
--   Http/Conn: webserver/http_conn.h, and http_conn::init. The fields of HttpConn are those of the
--     class, less the prefix m_. A `char *` into the read buffer is an offset, NULL and -1 are none.
--   Http/Line, Http/Request, Http/Headers, Http/Process: the parser, function by function; a long
--     function is a definition for each of its tests. Os is a parameter that stands for stat,
--     open and mmap; as in the code, what open and mmap return is not tested.
--     What C++ leaves undefined is an outcome of its own, `undefined`.
--   Http/Read: http_conn::read over a list of arrivals at the socket.
--   Http/Response: http_conn::add_response and what is built on it, up to process_write.
--   Http/Write, Http/Serve: http_conn::write over the results of writev, unmap and the functions on
--     epoll; init_conn, close_conn and process. What is done outside of the object is a list of
--     effects; the static m_user_count is passed along.
--   Http/Whole: a whole request, line by line (Lines, Headers, First, Answer), from an http_conn that
--     init has prepared (Fresh), and on to the response that is ready to be sent (Response).
--   ThreadPool: append and run of webserver/threadpool.h as functions on the queue and the semaphore.
--     ThreadPool/Threads has the threads as a step relation, each step a call on the mutex or the
--     semaphore, or what is done between lock and unlock. chapter_5/threadpool.h is the same but for
--     one unlock; Version tells the two apart.
--   Server: the loop of main of webserver/main.cpp, with the table of objects, m_user_count, the queue,
--     and the descriptors that are open or watched. A worker's call of process is one step. The array
--     of objects starts with arbitrary contents, for main does not initialise it.
--   HeaderParser: chapter_5/http_header_parser.cpp, the first form of the parser.
--   ProcessPool: chapter_5/CGI/process_pool.h and process_pool.cpp, the parent's choice of a child and
--     what is done with signals. ProcessPool/Parent is the loop of run_parent over the events of one
--     call of epoll_wait, ProcessPool/Child that of run_child over all calls, with the class T as a
--     parameter: the type of its objects, that of what they share, init and process.
--   Locker: the classes sem, locker and cond of webserver/locker.h, which chapter_5/locker.h repeats.
--     The calls of pthread are a record that is a parameter.
--   Chapter3: chapter_3/thread/semaphore.cpp (Buffer), producer_consumer.cpp (PollBuffer) and
--     pthread_cond.cpp (CondBuffer), case_sell_tickets.cpp (Tickets) and rwlock.cpp (RwLock) beside
--     them, each as a step relation over all its threads; in Tickets the load and the store of a
--     decrement are steps apart. Stack is the abstract stack that the three
--     buffers are set against; Base/Sums adds up over the threads.
--   Chapter4: chapter_4/tcp_server.cpp (TcpServer), the table of clients and the thread of a client,
--     and server_multiprocess with sigChildCatch (TcpServer/Processes); chapter_4/select.cpp
--     (SelectServer), chapter_4/poll.cpp (PollServer) and chapter_4/epoll.cpp (EpollServer), a round
--     of the loop each. Base/Pigeonhole counts the descriptors in the table of poll.cpp.
--   Chapter1: the sorts of chapter_1/gdb/bubble.cpp and select.cpp (Sorts), on the sorted lists of
--     Base/Sorted; the permissions that chapter_1/fileIO/ls_l.cpp prints (Perms), and the loop of
--     copyfile.cpp (CopyFile), over what read and write return, short and failed writes included.
-- The children whose names end in Tests, and those of Http/Tests, hold runs on small inputs.
--
-- Loops and fuel. The scan for the end of a line recurses on the number of bytes left. process_read
-- runs on two rounds more than there are bytes to look at, for each round but the last two consumes
-- a byte. The choice of a child takes as many rounds as there are children. The loops over recv and
-- writev, and those over events, recurse on the list of what the calls return. The inner loop of
-- epoll.cpp runs on fuel that is an argument, and statements on it range over all fuel. The sorts
-- recurse on the rounds that are left.
--
-- Not modelled: what is printed; the setup of sockets and signals; the creation of threads and
-- processes; the race of main and the workers on m_user_count, and on an object that a worker holds
-- while main closes it; EPOLLONESHOT. Byte values are natural numbers below 256, and the calls of
-- the system return what they are documented to return, errors included where the code can get one
-- and the file says so. In kill_all a read of m_sub_process outside the pool finds a dead entry,
-- and bytes that do not fit into the read buffer are not part of a later arrival. The constructors
-- and destructors of the pools, the clients and the UDP and local servers of chapter_4, the
-- programs of chapter_2, and those of chapter_1 and chapter_3 that only show a call have no model.
pub mod Base
pub mod CString
pub mod Chapter1
pub mod Chapter3
pub mod Chapter4
pub mod HeaderParser
pub mod Http
pub mod Locker
pub mod ProcessPool
pub mod Server
pub mod ThreadPool
