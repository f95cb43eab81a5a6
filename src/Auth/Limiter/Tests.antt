-- ===== src/Auth/Limiter/Tests.antt =====
-- Requests of two clients, with buckets that allow one request.
use goread.Base.{
  ◌≡◌, refl, Bool, true, false, String, some, [], ◌∷◌, pos, lookup, insert, string_Eq,
  if◌then◌else◌,
}
use goread.Services.Limiter.{Buckets}
use goread.Auth.Client.{Request, Net, get_secure_client_ip}
use goread.Auth.Limiter.{new_rate_limiter, get_limiter, rate_limit_middleware, step, run}

abbrev once : Buckets
once = record {
  Bucket = Bool;
  new_bucket = λ interval burst. true;
  allow = λ held now. (false, held);
  wait = λ held now. (false, held);
  tokens = λ held now. if held then pos 1 else pos 0;
}

abbrev plain_net : Net
plain_net = record {
  split_host_port = λ addr. some addr;
  parses = λ ip. true;
  in_block = λ block ip. false;
}

abbrev from_address : String → Request
from_address ip = record { method = "GET"; header = λ name. ""; remote_addr = ip }

second_refused :
    (rate_limit_middleware once plain_net false 2
      (from_address "a")
      (run once plain_net false (new_rate_limiter once true) ((1, some (from_address "a")) ∷ []))).1
    ≡ false
unfolding rate_limit_middleware run step get_secure_client_ip get_limiter lookup insert
second_refused = refl
