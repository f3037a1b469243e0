-- ===== src/Lib.antt =====
-- Verification of the MoQ and MQTT applications of MoQVeinsSim (MoQVeinsSim/src).
--
-- A publisher in a car announces tracks to a relay and sends it the objects of the tracks; the relay
-- forwards them to its subscribers. One transport of QUIC, TCP and UDP carries all of it, by the
-- framing of models/MoqFraming.h. The MQTT applications do the same through a broker, by the framing
-- of models/MqttFraming.h.
--
-- - Base, Reader: numbers, lists, C's signed integers, maps as association lists, and reading
--   through a pointer into a buffer, where a read past the end is a value.
-- - Stream: the receive loops `while (tryParse(...))` of the applications, over any parser. Each
--   round takes a byte at least, so one round more than there are bytes is enough fuel. Pieces has
--   streams that arrive cut anywhere.
-- - MoqFraming: models/MoqFraming.h. Words has the integers and strings, Frame the length prefix,
--   Object and Control the two kinds of frame, Envelope the class byte that TCP needs, Fragment the
--   datagrams of UDP, and Reassembly UdpObjectReassembler with its invariant and the delivery of
--   fragments in any order.
-- - MqttFraming: models/MqttFraming.h. Words has the integers, strings and Variable Byte Integers,
--   Packet the fixed header, Messages the packets, Subscribe the reading of a SUBSCRIBE.
-- - Quic, SendBuffer: the calls on a socket, priorities and error codes, the age test, and
--   `std::map<long, std::deque<T>>` as the publisher and the relay use it.
-- - Publisher: applications/moq/MoqPublisherApp.{h,cc}. State has its fields, Send the flush of
--   the buffer, Teardown the sweeps and the end of the subscriptions, Events the timers, the
--   sending of objects and `step`; Loop the end of flushSendBuffer, Count and Fate the counters,
--   Ended what holds after the teardown, Pacing, Quiet and Bursts the bytes of one event, Order
--   and Taken the order of the buffer, Streams the streams that are open, reset and written on.
-- - Relay: applications/moq/MoqRelayApp.{h,cc}. State has its fields, Send flushSocket and the
--   delivery timeouts, Control the messages of the three transports and the end of a subscription,
--   Forward the way of an object to the subscribers, Receive the receives over QUIC with the one recv
--   in flight on each socket, Close the end of a connection and the flow control events, Run these
--   events one after the other; Loop, Count, Step, Subscribe, Release, Serial, Gone and Frames
--   have the proofs.
-- - Broker: applications/mqtt/MqttBrokerApp.{h,cc}. State has its fields, Sets its sets of sockets,
--   Handlers the connections, SUBSCRIBE and PUBLISH; Refine the abstract broker, Fanout whom a
--   PUBLISH reaches, Invariant what every event keeps.
-- - Subscriber: applications/moq/MoqSubscriberApp.{h,cc} and models/SubscriberStats.h. Stats and
--   Bounds have the statistics, State the fields, Receive the receives of the three transports,
--   Subscribe the SUBSCRIBE; Serial the order of the recvs, Arrivals the way from the encoder to the
--   statistics.
-- - MqttClient: applications/mqtt/MqttPublisherApp.{h,cc} in Publishing, with Queue and Burst on
--   its outbound queue, and applications/mqtt/MqttSubscriberApp.{h,cc} in Receiving, with Delivery on
--   the way from the broker to the statistics.
-- - Tests: concrete inputs.
--
-- A handler is a function from the state before to the state after. The calls that it makes on the
-- sockets are added to the log `out`. The time of an event and the length of QUIC's send queue are
-- given with the event: QUIC takes a write in a later event only, so it reports the same length all
-- through one. Maps of counters are functions that read as 0 where there is no entry. Sizes and
-- counters are natural numbers, without an upper bound; what the code keeps in 32 or 64 bits on the
-- wire keeps its wrap-around. simtime_t is its raw integer. The loops of the flushes have as fuel
-- the work that is left: a round sends a byte or removes an object. A loop that goes on with an
-- invalid iterator is `none` in Relay.Forward and Relay.Receive, as is a read past the end of a buffer.
--
-- Durations that the code turns into seconds as doubles, for the statistics, are exact integers.
--
-- Not modelled: the configuration at the start of a simulation, recorded scalars and emitted signals,
-- the connect timers, how the relay accepts a connection, its receives over TCP and UDP, StringUtils,
-- which only a helper that nothing calls uses, and the frameworks below (INET, OMNeT++, Veins).
pub mod Base
pub mod Reader
pub mod Stream
pub mod MoqFraming
pub mod MqttFraming
pub mod Quic
pub mod SendBuffer
pub mod Publisher
pub mod Relay
pub mod Broker
pub mod Subscriber
pub mod MqttClient
pub mod Tests
