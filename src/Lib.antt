-- ===== src/Lib.antt =====
-- A model of corosig, a C++ library of coroutines for signal handlers.
--
-- The DNS codec (include/corosig/io/dns/Protocol.hpp, src/io/dns/Protocol.cpp) is in Dns:
--   Dns/Errors    ResponseDecodeError and the result of a decoding function;
--   Dns/Span      std::span over one message, a list of octets with its place in the message;
--   Dns/Wire      read_ntoh, write_hton, consume_2_octets, consume_4_octets, compression pointers;
--   Dns/Name      decode_label and parse_domain_name; Denotes is the specification, from RFC 1035,
--                 with pointers to any place of the message, where the RFC has prior places only;
--   Dns/Labels    DomainName::LabelsIterator over the buffer that holds the message;
--   Dns/Header    the header, its flags and encode_header;
--   Dns/Rdata     parse_rdata and the parsers of each type of RDATA;
--   Dns/Decoder   ResponseDecoder: consume_header, consume_question_entry, consume_resource_record;
--   Dns/Encode    split_into_labels, CompressionMap, write_label, encode_question.
-- Text splits a string view at its dots, for the encoder and for Ipv4Addr::parse.
--
-- The addresses (include/corosig/io/Sockaddr.hpp, src/io/Sockaddr.cpp) are in Ip:
--   Ip/V4         Ipv4Addr::parse; Dotted is the notation as a relation;
--   Ip/V6         Ipv6Addr::parse and its helpers, on an uninitialized buffer that is a parameter;
--                 Expanded and Regular have a parser without the buffer, Mapped the mapped
--                 notation of an address of IPv4.
--
-- Semaphore has include/corosig/Semaphore.hpp and src/Semaphore.cpp. The state is the semaphore
-- with its queue of waiters, the reactor's queue of ready coroutines (Reactor::schedule) and the
-- holders; Event and step say what the program does with them, in any order. No event destroys an
-- awaiter or a coroutine that waits or is scheduled.
--
-- Allocator has include/corosig/container/Allocator.hpp and src/container/Allocator.cpp, in a build
-- without the address sanitizer:
--   Allocator           the headers in front of the chunks, the free list, the constructor;
--   Allocator/Allocating, Allocator/Releasing  allocate and deallocate;
--   Chain, Distinct, FreeList, Bypass, Unlink, Others, Frames, Members, FirstFit  the free list;
--   Chunks, Owned, Open, Kept, Heap, Shift, Cut, Hole  the division of the memory into chunks;
--   Take, Front, Allocate, Locate, Align, Sizes, Granted, Allocated  the parts of allocate;
--   Join, MergeFront, MergeBack, Deallocate  those of deallocate;
--   Construct, Restores, Used, Regions, Reachable  the constructor and what a client does.
-- The abstract view is a list of chunks with their sizes and uses; IsHeap is the invariant that
-- ties the headers, the free list and the counters to it, and join is what deallocate does to it.
-- The memory is a function from block numbers to headers, so a write of the program that uses a
-- chunk does not show in it; a block that is not the first of a chunk may hold anything.
-- An index that the code asserts to be inside the memory is not checked. The constructor gives
-- none where its call of subspan is undefined. The fuel of allocate bounds the walk over the free
-- list.
--
-- Vector has include/corosig/container/Vector.hpp, for elements that are copied and moved without an
-- error: slots of memory that are raw, hold an object, or hold what a move has left. The allocator
-- is two parameters: whether it has memory for a number of elements, and what it does with memory
-- that is given back. IsVector says that a vector holds a list; Grows has reserve and push_back,
-- Erases pop_back and erase, Resizes clear and resize, Inserts insert, Copies clone,
-- assign and shrink_to_fit. A read of a slot without an object is the outcome undefined, and so is a
-- construction of an object over itself. The sums and doubled sizes of elements wrap around; the
-- size in octets of an allocation is not computed.
--
-- How the state corresponds. A pointer into a message is its distance from the message's first
-- octet, so DomainName keeps m_self_start only. Octets and chars are numbers below 256, and each
-- machine word keeps its wrap-around written out. A member function returns the new object.
-- An assertion of the code is a hypothesis of the theorems that need it; a function of the model
-- gives some value where it does not hold.
-- Template parameters for iterators stand as the list of what was written.
-- The question encoder takes std::hash and the memory that its map gets as parameters.
--
-- Fuel. parse_domain_name has two loops. The outer one makes 256 rounds at most, since the length
-- of the name grows in each and a length above 255 ends it. The inner one, which follows
-- compression pointers, need not end; its rounds are the parameter ptr_fuel of all that calls it,
-- and Outcome.diverge is the result when they run out. The theorems say when they do not.
--
-- Not modelled: system calls, coroutine frames, clocks, random numbers, and error descriptions.
pub mod Allocator
pub mod Dns
pub mod Ip
pub mod Prelude
pub mod Semaphore
pub mod Text
pub mod Vector
