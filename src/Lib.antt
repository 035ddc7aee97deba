-- ===== src/Lib.antt =====
-- Verification of the core of the game server. The sources are under src/ of the repository.
--
-- Parts and files:
-- World: places and kinds of items. World/Position.antt models src/position.h, World/ItemType.antt
--   the fields of src/items.h that the other parts read, and getItemType of src/items.cpp.
-- Net: the network side. Net/Message.antt models NetworkMessage (src/networkmessage.h and
--   src/networkmessage.cpp), every reader and writer with its guard; Net/Adler.antt adlerChecksum
--   (src/tools.cpp); Net/Xtea.antt the cipher in Protocol::XTEA_encrypt and XTEA_decrypt
--   (src/protocol.cpp); Net/Output.antt OutputMessage, getOutputBuffer and sendAll
--   (src/outputmessage.h, src/outputmessage.cpp, src/protocol.cpp); Net/Protocol.antt what a protocol
--   does to a message on its way out and in, and the framing in src/connection.cpp. A packet goes
--   through them in this order: fields are written to a NetworkMessage, writeToOutputBuffer copies it to
--   the protocol's OutputMessage, onSendMessage adds the length, pads, encrypts, and adds checksum and
--   length; parseHeader and parsePacket take it apart again. Net/Connection.antt models the handlers of
--   a connection (src/connection.h, src/connection.cpp) and Net/Service.antt the ports and the services
--   on them (src/server.h, src/server.cpp); a first packet asks its port for a protocol.
-- File: Otb.antt models the loader of node trees and Props.antt the property streams
--   (src/fileloader.h, src/fileloader.cpp).
-- Login: Ban.antt models Ban::acceptConnection (src/ban.cpp), WaitList.antt the queues in front of a
--   full server (src/waitlist.cpp).
-- Game: Wildcard.antt models the tree of the names that are online (src/wildcardtree.cpp), Party.antt
--   the members of a party and Party/Sharing.antt when they share experience (src/party.cpp),
--   Party/Handlers.antt the requests of players about parties (src/game.cpp), and Chat.antt the
--   channels of the chat (src/chat.h, src/chat.cpp).
-- Thing: Container.antt models items that hold items and the weights they keep, Container/Iterator.antt
--   the walk through all of them and Container/Query.antt the queries before a move
--   (src/container.h, src/container.cpp); Tile.antt models the order and the indices of the things on a
--   tile, and Tile/Changes.antt what adds and removes them (src/tile.h, src/tile.cpp).
-- Task: Scheduler.antt models the scheduler's events (src/scheduler.h, src/scheduler.cpp),
--   Dispatcher.antt the list of tasks that threadMain takes from (src/tasks.h, src/tasks.cpp).
-- Base holds what the parts share: Boolean tests, lists, signed integers, and byte memory with the
--   laws of memcpy. The children of a component's module hold its proofs, and each part has a module
--   Tests with the theorems applied at concrete inputs.
--
-- How the code is modelled: a struct or class is a record of the fields that the modelled code reads;
-- an operation is a function from the state to the answer and the new state. Numbers are natural numbers
-- with the wrap of their types written out. A buffer is a function from addresses to bytes, so that a
-- write outside of the array is visible as a change at an address past it. A std::map is a function or a
-- list of keys and values. Loops are structural recursion on the bytes, the entries or the tree; the
-- XTEA loops count rounds and blocks. Only the walk through a container runs on fuel, one for each item
-- of the tree, which is proved to be enough. Words are stored with the lowest byte first.
--
-- Not modelled: the operation of RSA, the clock, the configuration, the socket and the database are
-- parameters or arguments; floating-point numbers (addDouble takes the scaled product); locks, which
-- make a call one step; and the parts of the server that the list above does not name.
mod Base
pub mod World
pub mod File
pub mod Net
pub mod Login
pub mod Game
pub mod Task
pub mod Thing
