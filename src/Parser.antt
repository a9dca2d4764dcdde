-- ===== src/Parser.antt =====
-- Ipc/MAssIpc_PacketParser.h and Ipc/MAssIpc_PacketParser.cpp: the parser that cuts the bytes of a
-- transport into packets. Each call takes what has arrived and gives a packet when it is complete.
pub mod Filling
pub mod Framing
pub mod Delivery
pub mod Tests
use Prim.Native.Nat.{min}
use ipc_portable.Common.{
  ℕ, zero, ◌+◌, ◌-◌, ◌%◌, Bool, true, false, not, ◌&&◌, Option, none, some, List, [], length,
  replicate, ltb, ◌==◌, if◌then◌else◌, u32_mod, add32, sub32,
}
use ipc_portable.Stream.{store_at}
use ipc_portable.Stream.Bytes.{read_unsafe}
use ipc_portable.Packet.{c_invalid_packet_size, c_net_call_packet_header_size}
use ipc_portable.Transport.{TransportCopy}

pub data ReadDataStatus : Type 0 where
  available nodata failed : ReadDataStatus

pub record ReadState : Type 0 where
  pub data_size : ℕ
  pub need_size : ℕ
  pub raw_header_buffer : List ℕ

abbrev pub initial_state : ReadState
initial_state = record {
  data_size = c_invalid_packet_size;
  need_size = c_net_call_packet_header_size;
  raw_header_buffer = replicate 12 0;
}

pub record PacketParser : Type 0 where
  pub header_data : Option (List ℕ)
  pub incoming : ReadState

abbrev pub initial_parser : PacketParser
initial_parser = record { header_data = none; incoming = initial_state }

-- What one call of `ReadDataIsAvailable` leaves behind.
pub record ReadOutcome (T : Type 0) : Type 0 where
  pub status : ReadDataStatus
  pub buffer : List ℕ
  pub need_size : ℕ
  pub transport : T

-- What one call of `ReadNeededDataSize` returns (`size`) and leaves behind.
pub record Needed (T : Type 0) : Type 0 where
  pub size : ℕ
  pub packet : Option (List ℕ)
  pub parser : PacketParser
  pub transport : T

module _ (t : TransportCopy) where
  -- The bytes that the transport gave, put at their place.
  unfoldable pub place :
      List ℕ → ℕ → ℕ → ℕ → Option (List ℕ) × t.State → Option (ReadOutcome t.State)
  place buffer pos need_size read_size (none, s) =
      some (record { status = failed; buffer = buffer; need_size = need_size; transport = s })
  place buffer pos need_size read_size (some bytes, s) = elim (store_at buffer pos bytes) [
    | none ↦ none
    | some buffer' ↦ some (record {
      status = available;
      buffer = buffer';
      need_size = sub32 need_size read_size;
      transport = s;
    })
  ]

  -- `ReadDataIsAvailable`, with the pointer `buffer + start`.
  unfoldable pub read_data_is_available :
      List ℕ → ℕ → ℕ → ℕ → t.State → Option (ReadOutcome t.State)
  unfolding place
  read_data_is_available buffer start incoming_packet_data_size need_size s =
      let available_size = t.read_bytes_available s in
      let read_size = min need_size available_size in
      if ltb 0 available_size
      then (if read_size == 0
          then some
              (record { status = available; buffer = buffer; need_size = need_size; transport = s })
          else place buffer (start + sub32 incoming_packet_data_size need_size) need_size read_size
              (t.read read_size s))
      else some (record { status = nodata; buffer = buffer; need_size = need_size; transport = s })

  -- `ReceiveReadHeader`: the packet's buffer, with the header copied to its front. The bytes of a
  -- new buffer have no value before they are written; zeros stand for them.
  unfoldable pub receive_read_header : PacketParser → Option PacketParser
  receive_read_header p =
      let data_size = read_unsafe 4 p.incoming.raw_header_buffer in
      elim (store_at (replicate (add32 c_net_call_packet_header_size data_size) 0) 0
        p.incoming.raw_header_buffer) [
          | none ↦ none
          | some buffer ↦ some (record {
            header_data = some buffer;
            incoming = record p.incoming { data_size = data_size; need_size = data_size };
          })
        ]

  -- The first `if` of `ReadNeededDataSize`, behind the read of header bytes. `true` tells that the
  -- read failed.
  unfoldable pub header_arrived :
      ReadOutcome t.State → PacketParser → Option (Bool × PacketParser × t.State)
  unfolding receive_read_header
  header_arrived o p = elim o.status [
    | failed ↦ some (true, p, o.transport)
    | nodata ↦ some (false, p, o.transport)
    | available ↦
        if o.need_size == 0
        then (elim (receive_read_header p) [
          | none ↦ none
          | some p' ↦ some (false, p', o.transport)
        ])
        else some (false, p, o.transport)
  ]

  unfoldable pub header_phase : PacketParser → t.State → Option (Bool × PacketParser × t.State)
  unfolding read_data_is_available header_arrived
  header_phase p s =
      if not (p.incoming.data_size == c_invalid_packet_size)
      then some (false, p, s)
      else (elim (read_data_is_available p.incoming.raw_header_buffer 0
          c_net_call_packet_header_size p.incoming.need_size s) [
            | none ↦ none
            | some o ↦ header_arrived o (record p {
              incoming = record p.incoming {
                raw_header_buffer = o.buffer;
                need_size = o.need_size;
              };
            })
          ])

  -- The second `if`, behind the read of data bytes: the packet is handed out when it is complete.
  unfoldable pub data_arrived : ReadOutcome t.State → PacketParser → Needed t.State
  data_arrived o p = elim o.status [
    | failed ↦ record {
      size = c_invalid_packet_size;
      packet = none;
      parser = p;
      transport = o.transport;
    }
    | _ ↦
        if o.need_size == 0
        then record {
          size = c_net_call_packet_header_size;
          packet = some o.buffer;
          parser = initial_parser;
          transport = o.transport;
        }
        else record { size = o.need_size; packet = none; parser = p; transport = o.transport }
  ]

  unfoldable pub data_phase : PacketParser → t.State → Option (Needed t.State)
  unfolding read_data_is_available data_arrived
  data_phase p s =
      if p.incoming.data_size == c_invalid_packet_size
      then some (record { size = p.incoming.need_size; packet = none; parser = p; transport = s })
      else (elim p.header_data [
        | none ↦ none
        | some buffer ↦
            elim (read_data_is_available buffer c_net_call_packet_header_size p.incoming.data_size
              p.incoming.need_size s) [
                | none ↦ none
                | some o ↦ some (
                    data_arrived o (record {
                      header_data = some o.buffer;
                      incoming = record p.incoming { need_size = o.need_size };
                    }))
              ]
      ])

  -- `ReadNeededDataSize`.
  unfoldable pub read_needed_data_size : PacketParser → t.State → Option (Needed t.State)
  unfolding header_phase data_phase
  read_needed_data_size p s = elim (header_phase p s) [
    | none ↦ none
    | some (true, p', s') ↦
        some (record { size = c_invalid_packet_size; packet = none; parser = p'; transport = s' })
    | some (false, p', s') ↦ data_phase p' s'
  ]
