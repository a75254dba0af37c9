-- ===== src/Lib.antt =====
-- adchubd, a hub for the Advanced Direct Connect protocol.
--
-- A client connects to the hub and sends lines. adchpp/Client.cpp cuts the received data into lines;
-- adchpp/AdcCommand.cpp parses a line into a command (a type, a three-letter code, the SIDs and
-- features that address it, and parameters) and prints commands; adchpp/Entity.cpp holds what the
-- hub knows of a participant (its INF fields, its SUP features, its flags and its login state);
-- adchpp/ClientManager.cpp drives the login of every client through these states and routes commands
-- to entities. baselib has the conversions that these parts call.
--
-- Files:
-- Base: shared names, Boolean tests, lists over native numbers, bit fields, dictionaries.
-- Text: baselib/Text.cpp. `utf8_to_wc`, `wc_to_utf8` and `validate_utf8` are the functions of these
--   names; a buffer and a position are the rest of the buffer.
-- StrUtil: baselib/StrUtil.h. `to_string` and `string_to_uint` print and read decimal numbers.
-- AdcCommand: adchpp/AdcCommand.h and adchpp/AdcCommand.cpp. The record `AdcCommand` has the fields
--   of the class. `Parse` is `parse`, with one function for each part of its loop; `Print` is `escape`
--   and `toString`; `Params` is `getParam`, `delParam` and `hasFlag`. `Pieces`, `Loop` and `Safe` of
--   `Parse` follow the loop through the line.
-- Entity: adchpp/Entity.h, adchpp/Entity.cpp and baselib/Flags.h. The record `Entity` has the fields of
--   the class; `Fields`, `Supports`, `Flags` and `Info` have its operations.
-- Base32: baselib/Base32.cpp. `to_base32` and `from_base32` are the functions of these names, the
--   latter without an error pointer. It stops at a zero byte of its source, as it does where the program
--   passes the `c_str()` of a CID, of a hash to look for, or of the answer to a request of a password.
-- Client: adchpp/Client.h and adchpp/Client.cpp. `on_data` is `onData`; the record `Calls` stands for
--   what it calls: the client manager, the handler of the data mode and the socket, which act on a
--   state of any type.
-- Cid: adchpp/CID.h. `from_text` and `to_text` are `fromBase32` and `toBase32`.
-- Reason: adchpp/Reason.h, the reasons for which an entity is disconnected.
-- ClientManager: adchpp/ClientManager.h and adchpp/ClientManager.cpp. The record `ClientManager` holds
--   the state of the class, with a heap of entities and what the sockets tell. What is written to the
--   entities, and what the plugins are told of them, are logs. Its children are the parts of the file:
--   `Sid` is `makeSID`, on the sequence of the random values; `Routing` is `send` and `maybeSend`, with
--   the plugins as a parameter, `sendToAll` and `sendTo`; `Removal` is `setState`, `removeLogins` and
--   `removeEntity`; `Leaving` is `disconnect` and `badState`; `Default` is `handleDefault`; `Sup` is the
--   handler of SUP with `verifySUP`; `Login` is `enterIdentify`, `enterVerify`, `enterNormal` and
--   `failHBRI`; `Hbri` is `sendHBRI`, `stripProtocolSupports` and the `getHbriParams` of
--   adchpp/ManagedSocket.cpp; `Identity` is `verifyCID`, `verifyNick` and `verifyOverflow`; `Address` is
--   `verifyIp`; both have the checks of adchpp/Utils.cpp that they call; `Inf` is the handler of INF with
--   `verifyINF`; `Tcp` is the handler of TCP; `Receive` is `onReceive` with the `dispatch` of
--   adchpp/AdcCommand.h; `Timer` is `onTimerSecond`; `Arrival` is `handleIncoming`, `onConnected`,
--   `createBot`, `regBot`, `prepareSupports` and the constructors of the manager and, from
--   adchpp/Hub.cpp, of the hub entity. `Externals` is what these call and this library does not define:
--   the Tiger hash, the character classes of the C library and the addresses of boost::asio.
--   `Password` is `verifyPassword`.
--   `Proven` of `Identity`, `Own` of `Address`, `Delivered` and `Features` of `Routing`, `Expired` of
--   `Timer`, and `Kept` and `Second` of `Tcp` have the lemmas about these parts.
--   `Invariant` says what holds of the maps between two events. `Quiet`, `Moves`, `Commands` and
--   `Checking` have the operations that keep the names, `Changes`, `Claims`, `Nicks`, `Cids`, `Accept`
--   and `Entering` those that change them, `Inf` and `Receiving` the handlers, and `Steps` the steps that
--   clients make.
-- ManagedSocket: adchpp/ManagedSocket.cpp. The record `ManagedSocket` holds the queue, the times and
--   which handlers are set, with the statistics of the manager; `Call` is a log of what a socket is
--   offered and what it asks for. The operations have the names of the source: `written` is
--   `completeWrite` without an error. `Stream` is `SocketStream::write` of adchpp/SocketManager.cpp;
--   `Queue`, `Fifo` and `Reached` have the lemmas.
-- HashBloom: adchpp/HashBloom.cpp; `matches` is `match`. `Sizes` is about `getK`, `getM` and `pos`,
--   `Added` about `add` and `match`.
-- BloomManager: adchpp/BloomManager.cpp. The data that the plugin keeps with entities are dictionaries
--   by their addresses (`Plugins` of Entity). `on_share` and `on_snd` are the two parts of `onReceive`.
--   `Received` follows a filter from its arrival to the searches.
-- ParamExpander: baselib/ParamExpander.cpp. `format_params` is `formatParams`, with the virtual functions
--   as a parameter; `expand_time` is that of `TimeParamExpander`. `Ends`, `Doubled` and `Weeks` have the
--   lemmas.
-- SimpleXml: baselib/SimpleXML.cpp. `escape` is the function of this name for a text to be written,
--   `unescape` for one that has been read; `to_xml` is `toXML`. `Escaped` has the lemmas.
--   `Tree` is the class itself: the pointers to the current tag and to the child at hand are a place in
--   the tree. `Loading` is `TagReader`, which builds a tree from the calls of the reader, and `fromXML`.
--   `Visits`, `Loads`, `Values`, `Attribs` and `StartTags` have the lemmas.
-- SimpleXmlReader: baselib/SimpleXMLReader.cpp. `Reader` is its state, and a run of one of its functions
--   an `Outcome`: an exception, an endless loop, or a Boolean with the state after it. `Elements`, `Texts`
--   and `Declaration` have the functions, under their names in the source, `Process` has `process`, whose
--   switch is `round`, and `parse` of a block. Its children have the lemmas about where a round leads, and
--   those of `Nested` the lemmas about the tags.
-- Tests: concrete runs.
--
-- Bytes are numbers below 256, and strings are lists of them. The casts between four bytes and an
-- integer read the lowest byte first, which is what the union in AdcCommand.h supposes. An
-- exception is a value; in the functions of the manager that are `noexcept`, `none` stands for the end
-- of the process. `validate_loop`, `four_ccs`, `filter_loop` and `on_data_loop` take the
-- length of their input as fuel; each round passes at least one byte, and the theorems about them
-- show that this suffices. `digits_loop` has the 64 characters of the source's buffer as its fuel,
-- and `encode_loop` two rounds for each byte. `filter_loop`, `format_loop` and `unescape_loop` pass a
-- character in each round and have the length as their fuel. Times of a socket are
-- milliseconds, read from a clock that is an argument.
--
-- `process` has two rounds for each character in the buffer and two more: a round takes a
-- character off the buffer, goes on from the state `element_end` to the next, or ends the loop. The loop
-- of `decl_encoding_value` has a round more than there are characters, so that one that has no more
-- rounds has not advanced in one of them, and never ends.
--
-- The logarithm in the size of a bloom filter and its memory, `strftime`, `snprintf` and the time zone are
-- parameters too, and so are the conversions that the reader of XML calls. Values of signed types are
-- bit patterns.
--
-- Not modelled: the streams and timers of boost::asio, files, threads, Lua and its bindings, and
-- the conversions of character sets by the operating system. The hash function and the random
-- numbers are not defined here. Plugins that call the manager while it sends or receives are left out,
-- and so are `onReady` and `onBadLine`, which only call plugins. The data handler of a client, which in
-- the source gets the client too, does not change it here. A parameter of one byte has a name only if
-- the name has a zero byte, and `getParam` would throw there; no such name is asked for. The steps of clients leave out the handler of TCP and the timeout of a validation, because
-- the pointer with a token may be that of a deleted client, and bots, since nothing keeps two bots
-- from having one name.
mod Base
pub mod Text
pub mod StrUtil
pub mod AdcCommand
pub mod Reason
pub mod Entity
pub mod Base32
pub mod Cid
pub mod Client
pub mod ClientManager
pub mod ManagedSocket
pub mod HashBloom
pub mod BloomManager
pub mod ParamExpander
pub mod SimpleXml
pub mod SimpleXmlReader
pub mod Tests
