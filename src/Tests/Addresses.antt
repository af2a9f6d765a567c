-- ===== src/Tests/Addresses.antt =====
-- Connections of the addresses 1 and 2, of which the second is idle.
use udpspeeder.Base.{refl, false, [], ◌∷◌, some}
use udpspeeder.Convs.{Convs}
use udpspeeder.Tunnel.{Conn}
use udpspeeder.Conns.{Conns, clear_inactive0}
use udpspeeder.Conns.Clearing.{Trimmed, clear_inactive0-Trimmed}
use udpspeeder.Tests.Clients.{client}

abbrev no_convs : Convs
no_convs = record {
  data_to_conv = [];
  conv_to_data = [];
  lru = [];
  last_clear_time = 0;
  additional_clear_function = false;
  closed = [];
}

abbrev idle_conn : Conn
idle_conn = record client { conv_manager = no_convs }

abbrev two_conns : Conns
two_conns = record {
  mp = record { name = 1; value = client } ∷ record { name = 2; value = idle_conn } ∷ [];
  clear_it = some 2;
  last_clear_time = 0;
}

clear_inactive0-Trimmed_example :
    Trimmed 300000 (some 2) two_conns.mp (clear_inactive0 two_conns 300000).mp
clear_inactive0-Trimmed_example = clear_inactive0-Trimmed two_conns 300000 (refl, (refl, tt))
