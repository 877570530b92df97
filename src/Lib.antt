-- ===== src/Lib.antt =====
-- Verification of the photo gallery: gateway.c, peer.c, client.c, library.c, msgs.c, ring_list.c
-- and linked_list.c.
--
-- Clients keep photos at peers. A gateway knows the peers that are online, in a ring behind a
-- mutex: a peer registers there, leaves, reports peers that do not answer, and fetches photo ids;
-- a client asks for a peer, and the gateway turns the ring so that the next client gets another
-- one. Each peer keeps the list of photos and a copy of the ring of peers, each behind its mutex,
-- answers its clients and passes every change on to the other peers. The library is what a client
-- program calls.
--
-- How the files correspond to the code:
-- - Base, Machine, Heap, Cells: numbers and lists; commands as state passing, with the ways in
--   which a run can end (`exit`, a bad pointer, waiting for a mutex that the thread itself holds or
--   on a connection where nothing more arrives, fuel used up); the memory of nodes with malloc and
--   free; the nodes of a structure as a list of addresses and data, which is the abstract view of
--   both kinds of list.
-- - Ring: ring_list.c. A function that gets `item_r **root` returns the new root. Ring/Chain and
--   Ring/Circle say which nodes a ring consists of (IsRing); Ring/Push, Ring/Unlink, Ring/Remove,
--   Ring/Walk, Ring/Concat and Ring/Release have the theorems.
-- - LinkedList: linked_list.c, with LinkedList/Linked (IsList), Ends, Remove and Walk.
-- - Text: the conversions of printf and scanf that the messages use; Text/RoundTrip, Text/Keyword
--   and Text/Photo are about reading back what was printed.
-- - Msgs: the structures of msgs.h, isOnline, send_ring_udp and recv_ring_udp of msgs.c;
--   Msgs/Network is what is assumed of `connect`.
-- - Sockets: send_all and recv_all of msgs.c over the results of `send` and `recv`, with the wrap
--   of `int total_bytes`; fill_buffer is a call of recv_all with the size that a message announced.
-- - Gateway: the handlers of gateway.c: register (type 0), leave (type -1), report (type -2) and
--   fetch_id (type 1) of connection_peer, client_request of connection_client, broadcast_peers for
--   broadcastPeers, print_peers for printPeers. Gateway/Serving has rows of requests as a step
--   relation. Gateway/Threads has the two threads one section of the mutex at a time,
--   Gateway/Interleaving their interleavings, and Gateway/Races two of these that go wrong.
--   Gateway/Process has the sockets, the receive loops with recv_and_unstream_gw of msgs.c, and the
--   end of main; Gateway/Fairness is about the loop for the clients.
-- - Photos: the photo of linked_list.h with set_data, equal_data, print_data of msgs.c,
--   search_keyword of peer.c, and how a photo's keywords are joined and split on their way to
--   another peer.
-- - Peer: peer.c. Peer/State has the state, with the files as a map from names to bytes;
--   Peer/Sending has printPhotos, printPeers, send_photo to a peer and broadcast_peers_and_notify
--   (broadcastPeersAndNotify); Peer has add_keyword, search_photo, delete_photo, send_photo_name,
--   register_peer and delete_peer; Peer/Transfer has add_photo (add_replica for isPeer = 1),
--   send_photo to a client, photo_replication and send_all_photos; Peer/Connection has connection
--   with its dispatch, checkGWState, kill_server, notify_and_recv_photos and the start in main
--   (join_system, start_peer); Peer/Process has main with its sockets and the accept loop. The
--   other modules of Peer have the theorems.
-- - Library: library.c; the functions that move photos and names are in Library/Photos.
-- - Client: client.c: what is read and printed; Client/Menu has the commands, a round of the menu,
--   and the loops of main.
-- - System: two programs together. System/Entering is a new peer at the gateway, System/Leaving
--   one that ends, System/Upload a photo from a client to the peers, System/Replication a photo
--   from one peer to another, System/Replies and System/Copies all photos of a peer on their way
--   to a new one, System/Exchange a client with a peer, System/Typed a line of the menu on its way
--   to a peer's photo.
-- - Tests: runs at concrete inputs.
--
-- `IsRing h root xs` says that `root` names a circle of the distinct nodes `xs`, linked both ways,
-- in the memory `h`; `IsList` says the same of a singly linked list; `IsServing s xs` adds that
-- the gateway's mutex is free. A loop over a structure runs on fuel, one unit for a node; the
-- theorems ask for as many units as there are nodes, or one more where the loop looks behind the
-- last node.
--
-- Parameters are what the code does not decide: the addresses that malloc returns (the contents
-- are whatever lies there), whether `connect`, `send` and `recv` succeed and what they give, the
-- bytes on the stack before `sscanf` writes them.
--
-- Not modelled: the numbers in argv, starting threads, setting up signals, interleavings of the
-- threads of a peer, and of a thread of the gateway with another within one section of the mutex
-- (the mutex rules these out, but for the photo id, which one thread has to itself, and for the
-- test of the list, which is a step of its own), timeouts of sockets, and in the peer the output
-- to the terminal. One call of `send` moves fewer than 2^31 bytes. In peer.c a failed send of an
-- answer, which is only printed, is not distinguished from a sent one. In gateway.c the copy of
-- a message into the 100 characters of a message_photo is taken to fit, and so is what `sscanf`
-- reads of a message into an array, here and in peer.c; the `sscanf` of messages is modelled on
-- input without leading white space or sign, that of the client on any input. A negative size
-- that a client receives, for which malloc has no room, counts as a fault. The connections of a
-- peer run one after the other, and other threads between two handlers are not looked at.
pub mod Base
pub mod Machine
pub mod Heap
pub mod Cells
pub mod Ring
pub mod LinkedList
pub mod Text
pub mod Msgs
pub mod Gateway
pub mod Photos
pub mod Peer
pub mod Sockets
pub mod System
pub mod Library
pub mod Client
pub mod Tests
