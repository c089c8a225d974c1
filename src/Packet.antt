-- ===== src/Packet.antt =====
-- outlet/flow/decoder/helpers.go: the parser of sampled packets, which fills a FlowMessage.
-- A packet is a list of bytes. `none` is a panic, such as a read past the end of a slice, or fuel
-- that ran out; a parser that returns gives the layer-3 length and the message.
--
-- The functions of the source call one another. Once a packet is decapsulated they only meet
-- DECAP_NONE, so they are defined in two layers: each takes the parser of the next header as an
-- argument, the inner layer is closed by `parse_l4_plain`, the outer one by `parse_l4`.
pub mod Bytes
pub mod Headers
pub mod Frames
