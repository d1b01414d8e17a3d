-- ===== src/Examples/Requests.antt =====
-- Clients that are counted by the rate limit, and their addresses.
use native.Mathlib.Nat.{div-le_of_le-mul, mul-le-mul_left}
use aastro.Prelude.Sorting.{exchanged, behind, none_left}
use aastro.Router.Fingerprint.{Shape, compute_fingerprint, compute_fingerprint_lem}
use aastro.Header.{Header}
use aastro.Prelude.{
  insert, leb, ℕ, ◌+◌, ◌-◌, ◌*◌, ◌/◌, ◌≤◌, ◌≡◌, refl, true, [], ◌∷◌, arith, none, some, String,
  lookup, str_eq, if◌then◌else◌,
}
use aastro.Upstream.{ℤ, pos, negsuc}
use aastro.RateLimit.{at_least, since, Floats, Entry, allow_entry, sweep}
use aastro.RateLimit.Rounding.{IsRounding}
use aastro.RateLimit.Window.{granted, granted-le_limit}
use aastro.RateLimit.Cleanup.{allow_entry-sweep}
use aastro.Router.ClientIp.{
  Net, Request, trim_space, split_comma, ip_in_nets, remote_ip, extract_client_ip,
}
use aastro.Forwarding.{Texts, Original, resolve_headers}
use aastro.Forwarding.Spoofing.{IsOwn, resolve_headers-IsOwn}
use aastro.Router.ClientIp.Chain.{extract_client_ip-unforged}

abbrev pub size : ℤ → ℕ
size (pos n) = n
size (negsuc n) = 0

-- Numbers in thousandths.
abbrev pub thousandths : Floats
thousandths = record {
  Float = ℕ;
  of_int = λ a. size a * 1000;
  to_int = λ a. pos (a / 1000);
  sub = λ a b. a - b;
  div = λ a b. a * 1000 / b;
  mul = λ a b. a * b / 1000;
  add = λ a b. a + b;
}

thousandths_le_one : (m n : ℕ) → m ≤ n → leb (m * 1000 * 1000 / (n * 1000)) 1000 ≡ true
thousandths_le_one m n h =
    let bound : m * 1000 * 1000 / (n * 1000) ≤ 1000 =
      div-le_of_le-mul (n * 1000) (omega (arith, h)) in
    ground arith

thousandths_mul_le : (m a : ℕ) → leb a 1000 ≡ true → leb (m * 1000 * a / 1000) (m * 1000) ≡ true
thousandths_mul_le m a h =
    let small : a ≤ 1000 = ground arith in
    let product = mul-le-mul_left (m * 1000) small in
    let bound : m * 1000 * a / 1000 ≤ m * 1000 = div-le_of_le-mul 1000 (omega (arith, product)) in
    ground arith

pub rounds : IsRounding thousandths
unfolding at_least
rounds = record {
  le = leb;
  div_nonneg = λ m n positive. ground arith;
  div_le_one = λ m n positive h. thousandths_le_one m n h;
  sub_nonneg = λ a h. ground arith;
  sub_le = λ a h. ground arith;
  mul_nonneg = λ m a h. ground arith;
  mul_le = λ m a h below. thousandths_mul_le m a below;
  add_ge = λ n a small h. ground arith;
  add_le = λ m n a small h. ground arith;
  to_int_ge = λ m n a small small' h h'. ground arith;
}

abbrev pub counted : Entry
counted = record { current_count = 1; previous_count = 4; window_start = 100 }

granted-le_limit_example : granted thousandths 4 60 (101 ∷ 102 ∷ 150 ∷ []) counted + 1 ≤ 4
unfolding at_least since
granted-le_limit_example =
    granted-le_limit thousandths rounds 4 60 (omega arith) (omega arith) (101 ∷ 102 ∷ 150 ∷ [])
      counted ((omega arith, refl), ((omega arith, refl), ((omega arith, refl), tt))) (omega arith)
      (omega arith)

allow_entry-sweep_example :
    allow_entry thousandths 500 4 60 (lookup "k" (sweep 400 60 (("k", counted) ∷ [])))
    ≡ allow_entry thousandths 500 4 60 (lookup "k" (("k", counted) ∷ []))
unfolding lookup
allow_entry-sweep_example =
    allow_entry-sweep thousandths 400 500 4 60 "k" (("k", counted) ∷ []) (omega arith) (refl, tt)

-- Addresses are texts of digits and dots, and the proxies stand in one network.
abbrev net : Net
net = record {
  Ip = String;
  Network = String;
  parse_ip = λ s. if str_eq s "unknown" then none else some s;
  ip_text = λ ip. ip;
  split_host_port = λ s. if str_eq s "10.0.0.1:80" then some "10.0.0.1" else none;
  holds = λ network ip. str_eq network ip;
}

abbrev behind_proxy : Request
behind_proxy = record {
  remote_addr = "10.0.0.1:80";
  header = ("X-Forwarded-For", "1.2.3.4, 9.9.9.9" ∷ []) ∷ [];
}

extract_client_ip-unforged_example :
    extract_client_ip net ("10.0.0.1" ∷ []) behind_proxy ≡ "9.9.9.9"
unfolding lookup trim_space split_comma ip_in_nets remote_ip
extract_client_ip-unforged_example =
    extract_client_ip-unforged net ("10.0.0.1" ∷ []) behind_proxy "10.0.0.1" "9.9.9.9" "1.2.3.4"
      " 9.9.9.9" refl refl refl
      (record {
        entry = " 9.9.9.9";
        proxies = [];
        parts = refl;
        address = refl;
        outside = refl;
        all_proxies = tt;
      })

abbrev texts : Texts
texts = record {
  canonical = λ name. name;
  port_of = λ host. none;
  atoi = λ s. if str_eq s "443" then some 443 else none;
}

-- A request that the router has given an address, and one whose address is no IP address.
abbrev forging : Original
forging = record {
  request = behind_proxy;
  client_ip = "9.9.9.9";
  host = "api.example";
  url_host = "";
  is_tls = true;
}

abbrev nameless : Original
nameless = record forging { client_ip = "unknown" }

resolve_headers-IsOwn_example :
    IsOwn texts net
      ("10.0.0.1" ∷ [])
      forging
      (resolve_headers texts net ("10.0.0.1" ∷ []) ("*" ∷ []) forging [])
unfolding ip_in_nets
resolve_headers-IsOwn_example =
    resolve_headers-IsOwn texts net ("10.0.0.1" ∷ []) ("*" ∷ []) forging [] "9.9.9.9" refl refl

abbrev user_param : String → String
user_param name = if str_eq name "user" then "7" else ""

abbrev shape : Header → Shape
shape h = record { method = "GET"; header = h; raw_query = "b=1"; query = ("b", "1" ∷ []) ∷ [] }

compute_fingerprint_lem_example :
    (compute_fingerprint (λ s. s) (shape (("A", "1" ∷ []) ∷ ("B", []) ∷ [])) "/v"
      ≡ compute_fingerprint (λ s. s) (shape (("B", "2" ∷ []) ∷ ("A", []) ∷ [])) "/v")
    × (compute_fingerprint
          (λ s. s)
          (shape (insert "Cookie" ("c" ∷ []) (("A", "1" ∷ []) ∷ ("B", []) ∷ [])))
          "/v"
        ≡ compute_fingerprint (λ s. s) (shape (("A", "1" ∷ []) ∷ ("B", []) ∷ [])) "/v")
compute_fingerprint_lem_example =
    compute_fingerprint_lem (λ s. s) (shape (("A", "1" ∷ []) ∷ ("B", []) ∷ []))
      (shape (("B", "2" ∷ []) ∷ ("A", []) ∷ [])) "/v" "Cookie" ("c" ∷ []) refl refl exchanged
      (behind none_left) refl
