-- ===== src/Auth/Client.antt =====
-- internal/auth/client_ip.go: the address of a client. The environment variable, the headers and package
-- net are parameters.
use goread.Base.{
  Bool, true, false, ◌&&◌, String, string_Eq, Option, none, some, List, [], ◌∷◌, if◌then◌else◌,
  ◌==◌, not,
}

-- What a request carries; a missing header is the empty string.
pub record Request : Type 0 where
  pub method : String
  pub header : String → String
  pub remote_addr : String

-- `net.SplitHostPort` without the port, and whether an address parses and lies in a block.
pub record Net : Type 0 where
  pub split_host_port : String → Option String
  pub parses : String → Bool
  pub in_block : String → String → Bool

-- `on_app_engine` says that `GAE_ENV` is "standard".
unfoldable pub get_secure_client_ip : Net → Bool → Request → String
get_secure_client_ip net on_app_engine c =
    let ip = c.header "X-Appengine-User-Ip" in
    if on_app_engine && not (ip == "")
    then ip
    else elim (net.split_host_port c.remote_addr) [ none ↦ c.remote_addr | some host ↦ host ]

abbrev pub private_ranges : List String
private_ranges =
    "10.0.0.0/8" ∷ "172.16.0.0/12" ∷ "192.168.0.0/16" ∷ "127.0.0.0/8" ∷ "169.254.0.0/16" ∷ []

unfoldable pub outside_all : Net → String → List String → Bool
outside_all net ip [] = true
outside_all net ip (block ∷ blocks) =
    if net.in_block block ip then false else outside_all net ip blocks

unfoldable pub validate_client_ip : Net → String → Bool
validate_client_ip net ip = if net.parses ip then outside_all net ip private_ranges else false
