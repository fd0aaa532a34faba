-- ===== src/Racks/RackMap.antt =====
-- The functions of ECMeta/rackMap.c. `none` is an access outside an array or a text.
use eset_store.Base.{
  ℕ, zero, suc, ◌+◌, ◌*◌, Bool, true, ◌&&◌, Option, none, some, List, [], ◌∷◌, ◌++◌, ltb, leb, ◌==◌,
  if◌then◌else◌, length, ◌>>=◌,
}
use eset_store.Text.Number.{c_str, str_to_int, minus_one}
use eset_store.Text.Search.{starts_with, read_one_line}

pub data ServerState : Type 0 where
  unconnected connected init on down recovered : ServerState

pub record Server : Type 0 where
  pub server_ip : List ℕ
  pub ip_size : ℕ
  pub server_port : ℕ
  pub rack_id : ℕ
  pub server_id : ℕ
  pub group_id : ℕ
  pub group_row_id : ℕ
  pub group_col_id : ℕ
  pub cur_state : ServerState
  pub recovered_sets : ℕ

-- What getServerFromStr fills in.
pub record ServerLine : Type 0 where
  pub server_ip : List ℕ
  pub server_port : ℕ
  pub rack_id : ℕ

-- The characters before the first ' ', and those behind it. Without one the loop leaves the text.
unfoldable pub until_space : List ℕ → Option (List ℕ × List ℕ)
until_space [] = none
until_space (c ∷ cs) =
    let rest = until_space cs in
    if c == b' ' then some ([], cs) else (rest >>= λ (front, behind). some (c ∷ front, behind))

-- `buf[255]` on the stack; `old` is what it holds at a place. The NUL behind the port comes one place
-- too late, so that one old byte is between.
unfoldable pub get_server_from_str : (ℕ → ℕ) → List ℕ → Option ServerLine
unfolding until_space c_str str_to_int
get_server_from_str old str = until_space str >>= λ (ip, behind).
    until_space behind >>= λ (port, rack).
    (if leb (length ip) 16 && ltb (length port + 1) 255 && ltb (length rack) 255
      then some (record {
        server_ip = ip;
        server_port = str_to_int (some (c_str (port ++ old (length port) ∷ [])));
        rack_id = str_to_int (some (c_str rack));
      })
      else none)

pub record Rack : Type 0 where
  pub servers : List Server
  pub server_num : ℕ
  pub server_remain_size : ℕ

pub record RackMap : Type 0 where
  pub racks : ℕ → Rack
  pub rack_num : ℕ
  pub rack_remain_size : ℕ

abbrev pub server_incre_size : ℕ
server_incre_size = 10

abbrev pub rack_incre_size : ℕ
rack_incre_size = 10

-- The call of realloc counts bytes and not servers; `server_bytes` is the size of a server.
abbrev pub has_room : ℕ → Rack → Bool
has_room server_bytes rack =
    if rack.server_num == rack.server_remain_size
    then leb ((rack.server_num + 1) * server_bytes) (rack.server_remain_size + server_incre_size)
    else true

unfoldable pub add_server_to_rack : ℕ → ServerLine → Rack → Option Rack
add_server_to_rack server_bytes server rack =
    if has_room server_bytes rack && ltb (length server.server_ip) 16
    then some (record {
      servers =
          rack.servers
          ++ record {
            server_ip = server.server_ip;
            ip_size = length server.server_ip;
            server_port = server.server_port;
            rack_id = server.rack_id;
            server_id = rack.server_num;
            group_id = minus_one;
            group_row_id = minus_one;
            group_col_id = minus_one;
            cur_state = unconnected;
            recovered_sets = 0;
          }
            ∷ [];
      server_num = rack.server_num + 1;
      server_remain_size =
          if rack.server_num == rack.server_remain_size
          then rack.server_remain_size + server_incre_size
          else rack.server_remain_size;
    })
    else none

abbrev pub new_rack : Rack
new_rack = record { servers = []; server_num = 0; server_remain_size = server_incre_size }

-- initRackServers on the `size` racks from `from` on.
unfoldable pub init_rack_servers : (ℕ → Rack) → ℕ → ℕ → ℕ → Rack
init_rack_servers racks from size i =
    if leb from i && ltb i (from + size) then new_rack else racks i

-- The racks grow once, also where that is not enough.
unfoldable pub grow_racks : RackMap → ℕ → RackMap
unfolding init_rack_servers
grow_racks map rack_id =
    if leb map.rack_remain_size rack_id
    then record map {
      racks = init_rack_servers map.racks map.rack_remain_size rack_incre_size;
      rack_remain_size = map.rack_remain_size + rack_incre_size;
    }
    else map

unfoldable pub add_line : ℕ → RackMap → ServerLine → Option RackMap
unfolding grow_racks add_server_to_rack
add_line server_bytes map server =
    let grown = grow_racks map server.rack_id in
    if ltb server.rack_id grown.rack_remain_size
    then (add_server_to_rack server_bytes server (grown.racks server.rack_id) >>= λ rack.
        some (record grown {
          racks = λ i. if i == server.rack_id then rack else grown.racks i;
          rack_num =
              if leb grown.rack_num server.rack_id then server.rack_id + 1 else grown.rack_num;
        }))
    else none

-- The loop over the lines of the file: it ends with the file, or with an empty line. Each round
-- takes a character or more, so the number of the characters is enough fuel.
unfoldable pub read_servers : ℕ → (ℕ → ℕ) → ℕ → RackMap → List ℕ → Option RackMap
unfolding read_one_line get_server_from_str add_line
read_servers zero old server_bytes map file = some map
read_servers (suc fuel) old server_bytes map file =
    let (line, rest) = read_one_line file in
    if length line == 0
    then some map
    else (get_server_from_str old line >>= λ server.
        add_line server_bytes map server >>= λ map'. read_servers fuel old server_bytes map' rest)

-- initRMap and initRacksServers, on the contents of the file; `memory` is what new racks hold.
unfoldable pub init_r_map : (ℕ → Rack) → (ℕ → ℕ) → ℕ → List ℕ → Option RackMap
unfolding init_rack_servers read_servers
init_r_map memory old server_bytes file =
    read_servers (length file) old server_bytes
      (record {
        racks = init_rack_servers memory 0 rack_incre_size;
        rack_num = 0;
        rack_remain_size = rack_incre_size;
      })
      file

unfoldable pub locate_in_rack : List Server → List ℕ → Option Server
unfolding starts_with
locate_in_rack [] addr = none
locate_in_rack (s ∷ ss) addr =
    let rest = locate_in_rack ss addr in
    if length addr == s.ip_size && starts_with addr s.server_ip then some s else rest

unfoldable pub locate_from : (ℕ → Rack) → ℕ → ℕ → List ℕ → Option Server
unfolding locate_in_rack
locate_from racks idx zero addr = none
locate_from racks idx (suc left) addr =
    let rest = locate_from racks (idx + 1) left addr in
    elim (locate_in_rack (racks idx).servers addr) [ some s ↦ some s | none ↦ rest ]

-- `none` is NULL.
unfoldable pub locate_server : RackMap → List ℕ → Option Server
unfolding locate_from
locate_server map addr = locate_from map.racks 0 map.rack_num addr
