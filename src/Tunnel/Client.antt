-- ===== src/Tunnel/Client.antt =====
-- The handlers of tunnel_client.cpp, from the packet that is read to the calls that send: the reading of
-- sockets and the registration with libev are not part of them. What the clock, the random numbers and the
-- buffers give to one handler is a `Given`.
use udpspeeder.Base.{
  ℕ, suc, ◌+◌, Bool, true, false, List, [], ◌∷◌, Option, none, some, length, leb, ◌==◌,
  if◌then◌else◌, ◌>>=◌,
}
use udpspeeder.Base.Memory.{Memory, memcpy, slice}
use udpspeeder.Blob.{max_data_len}
use udpspeeder.Rs.{Codec}
use udpspeeder.Cook.{de_cook, decooked, bad_obscure, bad_checksum}
use udpspeeder.Framing.{put_conv_inplace, get_conv}
use udpspeeder.Sending.{Target, Dest, Net, Setting}
use udpspeeder.Delay.{Delay, Moment, delay_send, delay_send_batch}
use udpspeeder.Convs
use udpspeeder.Convs.{
  Convs, get_size, is_conv_used, is_data_used, get_new_conv, insert_conv, find_conv_by_data,
  find_data_by_conv, clear_inactive,
}
use udpspeeder.Tunnel.{Conn, Options, from_normal_to_fec, from_fec_to_normal, report}

abbrev pub max_conv_num : ℕ
max_conv_num = 10000

-- `ms i` is reading `i` of get_current_time, `us i` of get_current_time_us; `draws` what
-- get_fake_random_number gives to get_new_conv and `roll` what it gives to random_between; `head` and
-- `behind` are what stood in front of the data and behind a packet.
pub record Given : Type 0 where
  pub ms : ℕ → ℕ
  pub us : ℕ → ℕ
  pub draws : List ℕ
  pub roll : ℕ → ℕ
  pub moments : ℕ → Moment
  pub head : Memory
  pub behind : Memory
  pub junk : Memory

-- The packet that put_conv_inplace makes of data behind four bytes of room.
unfoldable pub framed : (head : Memory) → (conv : ℕ) → List ℕ → List ℕ
framed head conv s = let (m, n) = put_conv_inplace conv (memcpy head 4 s) (length s) in slice m 0 n

-- A packet as it stands in memory.
abbrev pub in_memory : (behind : Memory) → List ℕ → Memory
in_memory behind s = memcpy behind 0 s

-- The conversation of an address, a new one if it has none; `none` inside is an address that is ignored.
unfoldable pub conv_of : Given → Convs → (addr : ℕ) → Option (Option (Convs × ℕ))
conv_of v s addr =
    if is_data_used s addr
    then some (some (find_conv_by_data s addr))
    else if leb max_conv_num (get_size s)
    then some none
    else (get_new_conv s v.draws >>= λ (conv, rest).
        insert_conv s conv addr (v.ms 0) >>= λ s'. some (some (s', conv)))

module _ (Info : Type 0) (g : Setting) (o : Options) where
  pub record Site : Type 0 where
    pub conn : Conn
    pub net : Net Info
    pub queue : Delay

  module _ (codec : Codec) where
    -- `dest` with `type_fd64`, `remote_fd64` and `cook = 1`.
    abbrev pub to_server : Conn → Dest
    to_server c = record { target = Target.type_fd64 c.remote_fd64; cook = true }

    unfoldable pub encode_and_send : Given → Site → Option (List ℕ) → Option Site
    encode_and_send v x s =
        from_normal_to_fec codec o v.roll (v.us 0) (v.us 1) x.conn s >>= λ (c, outs).
        delay_send_batch Info g v.moments o.random_drop x.net x.queue (to_server x.conn) outs
        >>= λ (w, q). some (record { conn = c; net = w; queue = q })

    unfoldable pub client_process_local_packet : Given → Site → List ℕ → (addr : ℕ) → Option Site
    client_process_local_packet v x s addr =
        if length s == max_data_len + 1
        then some x
        else (conv_of v x.conn.conv_manager addr >>= λ r. elim r [
          | none ↦ some x
          | some (m, conv) ↦ Convs.update_active_time m conv (v.ms 1) >>= λ m'.
              encode_and_send v (record x { conn = record x.conn { conv_manager = m' } })
                (some (framed v.head conv s))
        ])

  -- One packet out of the decoder, number `i`.
  unfoldable pub send_home : Given → ℕ → Site → (delay : ℕ) → List ℕ → Option Site
  send_home v i x delay s = elim (get_conv (in_memory v.behind s) (length s)) [
    | none ↦ some x
    | some u ↦ elim (is_conv_used x.conn.conv_manager u.conv) [
      | false ↦ some x
      | true ↦ Convs.update_active_time x.conn.conv_manager u.conv (v.ms i) >>= λ m.
          let (m', addr) = find_data_by_conv m u.conv in
          delay_send Info g (v.moments i).now (v.moments i).allocated o.random_drop
            (v.moments i).random x.net x.queue delay
            (record { target = Target.type_fd_addr x.conn.local_listen_fd addr; cook = false })
            (slice (in_memory v.behind s) u.output u.len_out)
          >>= λ (w, q, r).
              some (record { conn = record x.conn { conv_manager = m' }; net = w; queue = q })
    ]
  ]

  abbrev pub send_all_home : Given → ℕ → Site → List (ℕ × List ℕ) → Option Site
  send_all_home v i x [] = some x
  send_all_home v i x ((delay, s) ∷ ss) =
      send_home v i x delay s >>= λ x'. send_all_home v (suc i) x' ss

  module _ (codec : Codec) where
    -- `none` is a failed reading.
    unfoldable pub client_process_remote_packet : Given → Site → Option (List ℕ) → Option Site
    client_process_remote_packet v x none = some x
    client_process_remote_packet v x (some s) =
        if length s == max_data_len + 1
        then some x
        else (de_cook g.platform g.crc32c v.junk g.ctx (in_memory v.behind s) (length s) >>= λ r.
            elim r [
              | bad_obscure ↦ some x
              | bad_checksum ↦ some x
              | decooked m len ↦
                  from_fec_to_normal codec o v.behind x.conn (slice m 0 len) >>= λ (c, outs).
                  send_all_home v 0 (record x { conn = c }) outs
            ])

    -- data_from_local_or_fec_timeout with is_time_out.
    unfoldable pub client_fec_timeout : Given → Site → Option Site
    client_fec_timeout v x = encode_and_send codec v x none

    unfoldable pub client_conn_timer :
        (report_interval : ℕ) → (debug_force_flush_fec : Bool) → Given → Site → Option Site
    client_conn_timer report_interval debug_force_flush_fec v x =
        clear_inactive x.conn.conv_manager (v.ms 0) >>= λ m.
        let c = record x.conn {
          conv_manager = m;
          stat = report report_interval (v.ms 1) x.conn.stat;
        } in
        if debug_force_flush_fec
        then client_fec_timeout v (record x { conn = c })
        else some (record x { conn = c })
