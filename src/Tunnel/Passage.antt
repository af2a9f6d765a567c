-- ===== src/Tunnel/Passage.antt =====
-- The handlers of the client as a whole: a packet of an application goes into the tunnel under the number of
-- its conversation, and what comes back under that number goes to the application.
use udpspeeder.Base.{
  ℕ, suc, ◌+◌, ◌≤◌, ◌≡◌, ◌≢◌, refl, ◌∙◌, ap, false, List, ◌++◌, some, length, ◌==◌, ◌>>=◌, arith,
}
use udpspeeder.Base.Memory.{Memory, slice}
use udpspeeder.Blob.{max_data_len}
use udpspeeder.Rs.{Codec}
use udpspeeder.Cook.{de_cook, decooked}
use udpspeeder.Sending.{Setting}
use udpspeeder.Sending.Wire.{wire}
use udpspeeder.Convs.Links.{Kept}
use udpspeeder.Tunnel.{Conn, Options, from_fec_to_normal, at_once}
use udpspeeder.Tunnel.Conserve.{from_fec_to_normal-at_once}
use udpspeeder.Tunnel.Client.{Given, Site, in_memory, client_process_remote_packet}
use udpspeeder.Tunnel.Replies.{Ready, homes, send_all_home-homes}

module _ (Info : Type 0) (g : Setting) (o : Options) (codec : Codec) where
  -- Where the maps are inverse, the clock does not go back and the queue has room: of a packet of an
  -- allowed length that de_cook accepts and the decoder takes, the client sends what comes out, in order,
  -- to the addresses of the conversations in use, and nothing else.
  pub client_process_remote_packet-homes :
      (v : Given) (x : Site Info g o) (s : List ℕ) (m : Memory) (len : ℕ) (c : Conn)
      (outs : List (ℕ × List ℕ))
      → ((i : ℕ) → v.ms i ≤ v.ms (suc i))
      → Ready Info g o v x.conn.conv_manager 0 x
      → length s ≢ max_data_len + 1
      → de_cook g.platform g.crc32c v.junk g.ctx (in_memory v.behind s) (length s)
        ≡ some (decooked m len)
      → from_fec_to_normal codec o v.behind x.conn (slice m 0 len) ≡ some (c, outs)
      → (ss : List (List ℕ)) × (x' : Site Info g o) × (outs ≡ at_once ss)
        × (client_process_remote_packet Info g o codec v x (some s) ≡ some x')
        × (wire x'.net.calls
            ≡ wire x.net.calls ++ homes x.conn.local_listen_fd v.behind x.conn.conv_manager ss)
        × (x'.queue ≡ x.queue)
        × Kept x'.conn.conv_manager
        × (x'.conn.conv_manager.conv_to_data ≡ x.conn.conv_manager.conv_to_data)
  unfolding client_process_remote_packet
  client_process_remote_packet-homes v x s m len c outs steady r short accepted decoded =
      let (ss, all_now, convs, listens, handle, stat, from) =
        from_fec_to_normal-at_once codec o v.behind x.conn c (slice m 0 len) outs decoded in
      let x1 : Site Info g o = record x { conn = c } in
      let r1 : Ready Info g o v x.conn.conv_manager 0 x1 = record {
        kept = rw convs r.kept;
        same = rw convs refl;
        early = rw convs r.early;
        room = r.room;
      } in
      let (x', run, sends, queue, kept, same) =
        send_all_home-homes Info g o v x.conn.conv_manager steady x1 ss r1 in
      let decoded' : from_fec_to_normal codec o v.behind x.conn (slice m 0 len)
          ≡ some (c, at_once ss) =
        decoded ∙ ap (λ os. some (c, os)) all_now in
      let fits : (length s == max_data_len + 1) ≡ false = ground (arith, short) in
      (
        ss,
        x',
        all_now,
        rw (client_process_remote_packet, fits, accepted, ◌>>=◌, decoded') run,
        sends ∙ ap (λ l. wire x.net.calls ++ homes l v.behind x.conn.conv_manager ss) listens,
        queue,
        kept,
        same,
      )
