-- ===== src/Racks/Tests.antt =====
-- A file of two servers, and the theorems about its lines and its lookups.
use eset_store.Base.{
  ℕ, ◌-◌, ◌^◌, ◌<◌, ◌==◌, if◌then◌else◌, ◌≡◌, refl, ◌⊎◌, true, false, none, some, List, [], ◌∷◌,
  ◌++◌, get_elem?,
}
use eset_store.Racks.RackMap.{
  Server, RackMap, get_server_from_str, new_rack, init_r_map, locate_server,
}
use eset_store.Racks.RackMap.ServerState.{unconnected}
use eset_store.Racks.Locate.{has_address, locate_server_lem}

abbrev zeros : ℕ → ℕ
zeros i = 0

abbrev sevens : ℕ → ℕ
sevens i = b'7'

-- "h 80 1"
abbrev line : List ℕ
line = b'h' ∷ b' ' ∷ b'8' ∷ b'0' ∷ b' ' ∷ b'1' ∷ []

-- The old byte behind the port is read as a digit of it.
get_server_from_str_run :
    (get_server_from_str zeros line
      ≡ some (record { server_ip = b'h' ∷ []; server_port = 80; rack_id = 1 }))
    × (get_server_from_str sevens line
        ≡ some (record { server_ip = b'h' ∷ []; server_port = 807; rack_id = 1 }))
unfolding get_server_from_str
get_server_from_str_run = (refl, refl)

abbrev server : Server
server = record {
  server_ip = b'h' ∷ [];
  ip_size = 1;
  server_port = 80;
  rack_id = 1;
  server_id = 0;
  group_id = 2 ^ 32 - 1;
  group_row_id = 2 ^ 32 - 1;
  group_col_id = 2 ^ 32 - 1;
  cur_state = unconnected;
  recovered_sets = 0;
}

abbrev one_server : RackMap
one_server = record {
  racks = λ i.
      if i == 1
      then record { servers = server ∷ []; server_num = 1; server_remain_size = 10 }
      else new_rack;
  rack_num = 2;
  rack_remain_size = 10;
}

init_r_map_run :
    (m : RackMap) × (init_r_map (λ i. new_rack) zeros 120 (line ++ 10 ∷ []) ≡ some m)
    × (m.rack_num ≡ 2)
    × (locate_server m (b'h' ∷ []) ≡ some server)
    × (locate_server m (b'g' ∷ []) ≡ none)
unfolding init_r_map locate_server
init_r_map_run = (_, refl, refl, refl, refl)

locate_server_lem_example :
    ((s : Server) × (r : ℕ) × (i : ℕ) × (locate_server one_server (b'h' ∷ []) ≡ some s)
      × (r < 2)
      × (get_elem? (one_server.racks r).servers i ≡ some s)
      × (has_address (b'h' ∷ []) s ≡ true))
    ⊎ ((locate_server one_server (b'h' ∷ []) ≡ none)
        × ((r i : ℕ) (s : Server)
            → r < 2
            → get_elem? (one_server.racks r).servers i ≡ some s
            → has_address (b'h' ∷ []) s ≡ false))
locate_server_lem_example = locate_server_lem one_server (b'h' ∷ [])
