-- ===== src/Lib.antt =====
-- Verification of frnetlib, a network library in C++: packets of typed values, WebSocket frames, and the
-- sockets that they travel through.
--
-- The parts and how they interact. A message type (`include/frnetlib/Packet.h`, `src/WebFrame.cpp`)
-- turns its values into bytes and hands them to a socket through the two virtual functions `send_raw` and
-- `receive_raw`, which a socket type overrides (`src/TcpSocket.cpp`), and through `receive_all`, a loop over
-- the second (`src/Socket.cpp`). The model keeps that division:
--
-- Base: Booleans, lists and numbers that all parts share. Base.Xor and Base.Bits carry what the masks of
-- WebSocket frames need.
-- Encoding: `include/frnetlib/NetworkEncoding.h`. `hton` is htons, htonl and fr_htonll at widths 2, 4 and
-- 8, and also the opposite direction; `store` and `load` are what a cast to `char *` or `memcpy` see of a
-- word. The byte order of the host is a parameter.
-- Packet: `include/frnetlib/Packet.h`. The record Packet is `buffer` and `buffer_read_index`. An `operator>>`
-- is a function from a packet to a result and a packet; `fail out_of_range` is the exception, and
-- `fail undefined` an access that C++ leaves undefined. Packet.Collections has the templates over any type
-- that a packet takes, Packet.Cursor the cursor, Packet.Transfer `send` and `receive`, Packet.Journey
-- the way from one host to another. A signed integer and
-- a floating point number are their bit patterns, and a `bool` is the byte that it occupies.
-- Socket: `include/frnetlib/Socket.h`, `src/Socket.cpp`. A socket type is the record Transport, over any
-- state. Socket.Contract and Socket.Sending state what the loops need of it, as the records Reads and
-- Writes; Socket.Steady states when reads go well, as the record Steady.
-- TcpSocket: `src/TcpSocket.cpp`. The answers of the kernel to `recv` and `send` are lists in the state;
-- every answer that the two calls document is among them, in any order.
-- Base64: `src/Base64.cpp`. `encode` is none where the code reads behind the end of its input.
-- Http: `src/Http.cpp` and `include/frnetlib/Http.h`, what requests and responses share: the helpers on strings,
-- the table of MIME types in five parts, the maps of headers and variables (Http.Fields), the enumerations
-- (Http.Kinds), the lists of variables (Http.Arguments), the members and the lines of a header (Http.Message), `send`
-- and `receive` over any socket (Http.Transfer, Http.Receiving), and the lines that `construct` writes (Http.Write).
-- HttpRequest: `src/HttpRequest.cpp`. The record is the state between two calls of `parse`; HttpRequest reads a
-- header, HttpRequest.Parse is `parse`, HttpRequest.Construct is `construct`, HttpRequest.Receive is `receive` with that
-- `parse`. HttpRequest.Incremental and HttpRequest.Bounds are on pieces and on sizes.
-- HttpResponse: `src/HttpResponse.cpp`, in the same parts, with the loop over chunks in HttpResponse.Parse, what one
-- round of it does in HttpResponse.Steps, what a body in chunks is in HttpResponse.Chunks, and what `construct` writes in
-- HttpResponse.Written and HttpResponse.FirstLine; Http.Lines and Http.ReadBack are on the lines of any header. An
-- exception that leaves `parse` is the outcome `thrown`. An `std::unordered_map` is the list of its entries in the
-- order of iteration; where a new entry goes is the library's choice, and the model puts it last.
-- MAX_HTTP_HEADER_SIZE and MAX_HTTP_BODY_SIZE are the defaults of `CMakeLists.txt`.
-- Url: `src/URL.cpp` and `include/frnetlib/URL.h`, with places in the text counted as the code counts them. `get_url` is
-- none where the code throws.
-- WebFrame: `include/frnetlib/WebFrame.h`, `src/WebFrame.cpp`. `is_client` is a parameter; the key for all
-- frames is an argument and part of the result.
--
-- Fuel. The loops that repeat while a socket answers that it would block run on fuel, and return none where it
-- runs out. How much is enough is a hypothesis of each theorem on them: more than the bytes to read and twice the
-- answers that the socket has left. The loop over the chunks of a response gets the length of the body as its
-- fuel, which is enough, since a round makes the body shorter.
--
-- Sizes. `size_t` arithmetic is written out modulo 2 ^ 64; a buffer of 2 ^ 63 bytes or more does not exist. That
-- memory runs out is not modelled.
--
-- Not modelled: the TLS sockets and listeners, connecting and listening,
-- the selector, and the handshake of WebSockets; SHA-1, which is a copy of another project's code.
pub mod Base
pub mod Base64
pub mod Encoding
pub mod Http
pub mod HttpRequest
pub mod HttpResponse
pub mod Packet
pub mod Socket
pub mod TcpSocket
pub mod Url
pub mod WebFrame
