-- ===== src/Tests/Clients.antt =====
-- A client with two conversations and no error correction, and clock readings that go back once.
use udpspeeder.Base.{ℕ, ◌+◌, ◌≡◌, inr, refl, true, false, List, [], ◌∷◌, ◌++◌, some, arith}
use udpspeeder.Base.Memory.{slice, memcpy}
use udpspeeder.Cook.{de_cook, de_obscure_step, xor_step, check_crc, rm_crc32}
use udpspeeder.Sending.{Setting}
use udpspeeder.Sending.Wire.{wire}
use udpspeeder.Convs.{Convs, is_conv_used, get_size}
use udpspeeder.Convs.Links.{Kept}
use udpspeeder.Clock.{get_current_time_us}
use udpspeeder.Clock.Steady.{readings, Ascending, readings-Ascending}
use udpspeeder.Tunnel.{Conn, Options, InnerStat, at_once, count_in, count_out, from_fec_to_normal}
use udpspeeder.Tunnel.Client.{Given, Site, in_memory, client_process_remote_packet}
use udpspeeder.Tunnel.Replies.{Ready, homes}
use udpspeeder.Tunnel.Passage.{client_process_remote_packet-homes}
use udpspeeder.Handles.{to_fd}
use udpspeeder.Tunnel.Return.{Exchanged, client_process_local_packet-homes}
use udpspeeder.Tests.Codecs.{sum_codec}
use udpspeeder.Tests.Groups.{encoder, decoder, parameter}
use udpspeeder.Tests.Sends.{plain, setting, one_handle, zeros, one_waits, moments}
use udpspeeder.Tests.Conversations.{two_convs, two_convs-Kept}

readings-Ascending_example :
    Ascending (readings (record { value_fix = 0; largest_value = 0 }) (100 ∷ 40 ∷ 50 ∷ []))
unfolding get_current_time_us
readings-Ascending_example =
    readings-Ascending (record { value_fix = 0; largest_value = 0 }) (100 ∷ 40 ∷ 50 ∷ [])
      (omega arith) (omega arith, (omega arith, (omega arith, tt)))

abbrev pub nothing : InnerStat
nothing = record {
  input_packet_num = 0;
  input_packet_size = 0;
  output_packet_num = 0;
  output_packet_size = 0;
}

abbrev pub bare : Setting
bare = record setting {
  ctx = record plain { disable_checksum = true; disable_obscure = true; disable_xor = true };
}

abbrev pub options : Options
options = record {
  disable_fec = true;
  fix_latency = false;
  jitter_min = 0;
  jitter_max = 0;
  output_interval_min = 0;
  output_interval_max = 0;
  random_drop = 0;
  fec_par = parameter;
}

abbrev pub client : Conn
client = record {
  conv_manager = two_convs;
  fec_encode_manager = encoder;
  fec_decode_manager = decoder;
  stat = record { last_report_time = 0; normal_to_fec = nothing; fec_to_normal = nothing };
  last_active_time = 0;
  local_listen_fd = 6;
  remote_fd64 = 3;
  addr = 0;
}

abbrev site : Site ℕ bare options
site = record { conn = client; net = one_handle; queue = one_waits }

abbrev pub given : Given
given = record {
  ms = λ i. 200001 + i;
  us = λ i. 200001000 + i;
  draws = 0 ∷ 7 ∷ 9 ∷ [];
  roll = λ i. 0;
  moments = moments;
  head = zeros;
  behind = zeros;
  junk = zeros;
}

client_process_local_packet-homes_example :
    (m : Convs) × (conv : ℕ) × Exchanged ℕ bare options sum_codec given site (5 ∷ []) 90 7 conv m
unfolding is_conv_used get_size to_fd
client_process_local_packet-homes_example =
    client_process_local_packet-homes ℕ bare options sum_codec given site (5 ∷ []) 90 7
      two_convs-Kept (omega arith, (omega arith, tt)) (omega arith)
      (omega arith, (omega arith, (omega arith, tt)))
      (inr (omega arith, (0 ∷ 7 ∷ [], 9, [], refl, omega arith, refl))) refl (omega arith)

site-Ready : Ready ℕ bare options given two_convs 0 site
site-Ready = record {
  kept = two_convs-Kept;
  same = refl;
  early = (omega arith, (omega arith, tt));
  room = inr (omega arith);
}

abbrev reply : List ℕ
reply = 0 ∷ 0 ∷ 0 ∷ 8 ∷ 1 ∷ 2 ∷ []

client_process_remote_packet-homes_example :
    (ss : List (List ℕ)) × (x' : Site ℕ bare options) × (at_once (reply ∷ []) ≡ at_once ss)
    × (client_process_remote_packet ℕ bare options sum_codec given site (some reply) ≡ some x')
    × (wire x'.net.calls ≡ wire [] ++ homes 6 zeros two_convs ss)
    × (x'.queue ≡ one_waits)
    × Kept x'.conn.conv_manager
    × (x'.conn.conv_manager.conv_to_data ≡ two_convs.conv_to_data)
unfolding de_cook de_obscure_step xor_step check_crc rm_crc32 from_fec_to_normal slice count_in
    count_out memcpy
client_process_remote_packet-homes_example =
    client_process_remote_packet-homes ℕ bare options sum_codec given site reply
      (in_memory zeros reply) 6
      (record client {
        stat = record client.stat {
          fec_to_normal = record {
            input_packet_num = 1;
            input_packet_size = 6;
            output_packet_num = 1;
            output_packet_size = 6;
          };
        };
      })
      (at_once (reply ∷ [])) (λ i. omega arith) site-Ready (omega arith) refl refl
